-- ===== src/Infra/ThreadPool/Interleavings.antt =====
-- The threads around a pool, interleaved: submitters between their test of the state, their push
-- and their counting, workers between their pop and their counters, and one thread that stops the
-- pool. A thread is counted where it stands.
use project_chat.Common.{ℕ, suc, ◌≡◌, Bool, true, false, Option, none, some, List, [], ◌∷◌, ◌++◌}
use project_chat.Infra.ThreadSafeQueue.{
  ThreadSafeQueue, QueueCloseMode, discard, ended, popped, wait_pop,
}
use project_chat.Infra.ThreadPool.{
  ThreadPool, ThreadPoolState, TaskSubmitResult, accepted, running, stopped, is_running, enqueue,
  count_result, start_task, leave_task, count_outcome, close_tasks,
}

pub record World (T : Type 0) : Type 0 where
  pub pool : ThreadPool T
  -- The submitters that saw a running pool, and those whose push has its answer.
  pub checked : ℕ
  pub answers : List TaskSubmitResult
  -- The workers: waiting, with a task just popped, running it, past it, out of the loop.
  pub idle : ℕ
  pub claimed : ℕ
  pub busy : ℕ
  pub done : List Bool
  pub exited : ℕ
  -- The mode of the stop that is under way or over, and whether it has closed the queue.
  pub stopper : Option QueueCloseMode
  -- All tasks that were accepted, that were popped, and that a stop threw away.
  pub accepted_tasks : List T
  pub taken : List T
  pub dropped : List T

abbrev pub with_accepted : {T : Type 0} → TaskSubmitResult → T → List T → List T
with_accepted accepted t ts = ts ++ (t ∷ [])
with_accepted _ t ts = ts

-- What a close throws away.
abbrev pub lost : {T : Type 0} → QueueCloseMode → Bool → List T → List T
lost discard false ts = ts
lost _ _ ts = []

pub data Step {T : Type 0} : World T → World T → Type 0 where
  check :
      {w : World T} → is_running w.pool.state ≡ true → Step w (record w { checked = suc w.checked })
  push :
      {w : World T} (n : ℕ) (t : T)
      → w.checked ≡ suc n
      → Step w (record w {
        pool = (enqueue t w.pool).1;
        checked = n;
        answers = (enqueue t w.pool).0 ∷ w.answers;
        accepted_tasks = with_accepted (enqueue t w.pool).0 t w.accepted_tasks;
      })
  count :
      {w : World T} (r : TaskSubmitResult) (before after : List TaskSubmitResult)
      → w.answers ≡ before ++ r ∷ after
      → Step w (record w { pool = count_result r w.pool; answers = before ++ after })
  pop :
      {w : World T} (n : ℕ) (t : T) (q : ThreadSafeQueue T)
      → w.idle ≡ suc n
      → wait_pop w.pool.queue ≡ popped t q
      → Step w (record w {
        pool = record w.pool { queue = q };
        idle = n;
        claimed = suc w.claimed;
        taken = w.taken ++ (t ∷ []);
      })
  exit :
      {w : World T} (n : ℕ)
      → w.idle ≡ suc n
      → wait_pop w.pool.queue ≡ ended
      → Step w (record w { idle = n; exited = suc w.exited })
  start :
      {w : World T} (n : ℕ)
      → w.claimed ≡ suc n
      → Step w (record w { pool = start_task w.pool; claimed = n; busy = suc w.busy })
  finish :
      {w : World T} (n : ℕ) (succeeded : Bool)
      → w.busy ≡ suc n
      → Step w (record w { pool = leave_task w.pool; busy = n; done = succeeded ∷ w.done })
  outcome :
      {w : World T} (succeeded : Bool) (before after : List Bool)
      → w.done ≡ before ++ succeeded ∷ after
      → Step w (record w {
        pool = count_outcome succeeded w.pool;
        done = before ++ after;
        idle = suc w.idle;
      })
  stop :
      {w : World T} (mode : QueueCloseMode)
      → w.pool.state ≡ running
      → Step w (record w {
        pool = record w.pool { state = ThreadPoolState.stopping };
        stopper = some mode;
      })
  close :
      {w : World T} (mode : QueueCloseMode)
      → w.pool.state ≡ ThreadPoolState.stopping
      → w.stopper ≡ some mode
      → Step w (record w {
        pool = close_tasks mode w.pool;
        dropped = w.dropped ++ lost mode w.pool.queue.is_closed w.pool.queue.items;
      })
  join :
      {w : World T}
      → w.pool.state ≡ ThreadPoolState.stopping
      → w.pool.queue.is_closed ≡ true
      → w.exited ≡ w.pool.worker_count
      → Step w (record w { pool = record w.pool { state = stopped } })

pub data Reach {T : Type 0} : World T → World T → Type 0 where
  here : {w : World T} → Reach w w
  onward : {u v w : World T} → Reach u v → Step v w → Reach u w

-- All workers wait at first.
abbrev pub opened : {T : Type 0} → ThreadPool T → World T
opened p = record {
  pool = p;
  checked = 0;
  answers = [];
  idle = p.worker_count;
  claimed = 0;
  busy = 0;
  done = [];
  exited = 0;
  stopper = none;
  accepted_tasks = [];
  taken = [];
  dropped = [];
}
