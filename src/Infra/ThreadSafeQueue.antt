-- ===== src/Infra/ThreadSafeQueue.antt =====
-- include/infra/thread/ThreadSafeQueue.h and the enumerations of include/infra/thread/ThreadTypes.h:
-- the queue between the submitters and the workers. Each method holds the lock from end to end, so
-- it is one step on the queue. Capacity 0 is no bound.
use project_chat.Common.{
  ℕ, Bool, true, false, not, ◌&&◌, List, [], ◌∷◌, ◌++◌, Option, none, some, length, leb, eqb,
  if◌then◌else◌,
}

pub data QueuePushResult : Type 0 where
  ok full closed : QueuePushResult

pub data QueueCloseMode : Type 0 where
  drain discard : QueueCloseMode

pub record ThreadSafeQueue (T : Type 0) : Type 0 where
  pub items : List T
  pub capacity : ℕ
  pub is_closed : Bool

-- What `waitPop` may come to: it goes on waiting, the queue has ended, or it has an element.
pub data Waited (T : Type 0) : Type 0 where
  asleep ended : Waited T
  popped : T → ThreadSafeQueue T → Waited T

module _ {T : Type 0} where
  unfoldable pub new : ℕ → ThreadSafeQueue T
  new capacity = record { items = []; capacity = capacity; is_closed = false }

  unfoldable pub push : T → ThreadSafeQueue T → QueuePushResult × ThreadSafeQueue T
  push value q =
      if q.is_closed
      then (closed, q)
      else if not (eqb q.capacity 0) && leb q.capacity (length q.items)
      then (full, q)
      else (ok, record q { items = q.items ++ (value ∷ []) })

  unfoldable pub try_pop : ThreadSafeQueue T → Option (T × ThreadSafeQueue T)
  try_pop q = elim q.items [ [] ↦ none | x ∷ rest ↦ some (x, record q { items = rest }) ]

  -- The wait ends when the queue is closed or holds something.
  unfoldable pub wait_pop : ThreadSafeQueue T → Waited T
  wait_pop q = elim q.items [
    | [] ↦ if q.is_closed then ended else asleep
    | x ∷ rest ↦ popped x (record q { items = rest })
  ]

  unfoldable pub close : QueueCloseMode → ThreadSafeQueue T → ThreadSafeQueue T
  close mode q = if q.is_closed then q else elim mode [
    | drain ↦ record q { is_closed = true }
    | discard ↦ record q { items = []; is_closed = true }
  ]
