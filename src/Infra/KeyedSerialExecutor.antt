-- ===== src/Infra/KeyedSerialExecutor.antt =====
-- src/infra/thread/KeyedSerialExecutor.cpp: pools of one worker each; a key has its pool. The hash
-- of a key (`std::hash`) is a parameter. `accepting_` is read and exchanged at once.
pub mod Shards
use project_chat.Common.{
  ℕ, ◌+◌, ◌%◌, ◌^◌, ◌&&◌, ◌||◌, not, Bool, true, false, Option, none, some, List, [], ◌∷◌, map,
  length, eqb, if◌then◌else◌, String, get_elem?, set, replicate,
}
use project_chat.Infra.ThreadSafeQueue.{QueueCloseMode}
use project_chat.Infra.ThreadPool
use project_chat.Infra.ThreadPool.{
  ThreadPool, ThreadPoolState, running, stopping, stopped, TaskSubmitResult, invalid_task,
  is_running,
}

-- `ThreadPoolStats`
pub record ThreadPoolStats : Type 0 where
  pub state : ThreadPoolState
  pub worker_count : ℕ
  pub queued_tasks : ℕ
  pub queue_capacity : ℕ
  pub active_tasks : ℕ
  pub submitted_tasks : ℕ
  pub completed_tasks : ℕ
  pub failed_tasks : ℕ
  pub rejected_full : ℕ
  pub rejected_stopped : ℕ

-- `ThreadPool::stats`
pub stats : {T : Type 0} → ThreadPool T → ThreadPoolStats
stats p = record {
  state = p.state;
  worker_count = p.worker_count;
  queued_tasks = length p.queue.items;
  queue_capacity = p.queue.capacity;
  active_tasks = p.active_tasks;
  submitted_tasks = p.submitted_tasks;
  completed_tasks = p.completed_tasks;
  failed_tasks = p.failed_tasks;
  rejected_full = p.rejected_full;
  rejected_stopped = p.rejected_stopped;
}

abbrev pub sum64 : ℕ → ℕ → ℕ
sum64 a b = (a + b) % 2 ^ 64

abbrev pub is_stopped : ThreadPoolState → Bool
is_stopped stopped = true
is_stopped _ = false

pub record KeyedSerialExecutor (T : Type 0) : Type 0 where
  pub accepting : Bool
  pub shards : List (ThreadPool T)

-- What the loop in `aggregateStats` carries.
pub record Aggregate : Type 0 where
  pub total : ThreadPoolStats
  pub all_running : Bool
  pub all_stopped : Bool

pub add_stats : Aggregate → ThreadPoolStats → Aggregate
add_stats a s = record {
  total = record a.total {
    worker_count = sum64 a.total.worker_count s.worker_count;
    queued_tasks = sum64 a.total.queued_tasks s.queued_tasks;
    queue_capacity = sum64 a.total.queue_capacity s.queue_capacity;
    active_tasks = sum64 a.total.active_tasks s.active_tasks;
    submitted_tasks = sum64 a.total.submitted_tasks s.submitted_tasks;
    completed_tasks = sum64 a.total.completed_tasks s.completed_tasks;
    rejected_full = sum64 a.total.rejected_full s.rejected_full;
    rejected_stopped = sum64 a.total.rejected_stopped s.rejected_stopped;
    failed_tasks = sum64 a.total.failed_tasks s.failed_tasks;
  };
  all_running = a.all_running && is_running s.state;
  all_stopped = a.all_stopped && is_stopped s.state;
}

pub add_all : Aggregate → List ThreadPoolStats → Aggregate
unfolding add_stats
add_all a [] = a
add_all a (s ∷ ss) = add_all (add_stats a s) ss

abbrev pub no_stats : ThreadPoolStats
no_stats = record {
  state = stopped;
  worker_count = 0;
  queued_tasks = 0;
  queue_capacity = 0;
  active_tasks = 0;
  submitted_tasks = 0;
  completed_tasks = 0;
  failed_tasks = 0;
  rejected_full = 0;
  rejected_stopped = 0;
}

module _ {T : Type 0} where
  -- The constructor throws when a number is 0.
  pub new : ℕ → ℕ → Option (KeyedSerialExecutor T)
  new shard_count capacity =
      if eqb shard_count 0 || eqb capacity 0
      then none
      else some (record {
        accepting = true;
        shards = replicate shard_count (ThreadPool.fresh 1 capacity);
      })

  pub submit :
      (String → ℕ)
      → String
      → Option T
      → KeyedSerialExecutor T
      → TaskSubmitResult × KeyedSerialExecutor T
  submit hasher key none e = (invalid_task, e)
  submit hasher key (some task) e =
      if not e.accepting
      then (TaskSubmitResult.stopping, e)
      else elim (get_elem? e.shards (hasher key % length e.shards)) [
        | none ↦ (TaskSubmitResult.stopping, e)
        | some pool ↦
            let (result, changed) = ThreadPool.submit (some task) pool in
            (result, record e { shards = set e.shards (hasher key % length e.shards) changed })
      ]

  pub stop : (T → Bool) → QueueCloseMode → KeyedSerialExecutor T → KeyedSerialExecutor T
  stop outcome mode e =
      if not e.accepting
      then e
      else record e { accepting = false; shards = map (ThreadPool.stop outcome mode) e.shards }

  pub aggregate_stats : KeyedSerialExecutor T → ThreadPoolStats
  unfolding add_all stats
  aggregate_stats e =
      let a =
        add_all (record { total = no_stats; all_running = true; all_stopped = true })
          (map stats e.shards) in
      record a.total {
        state = if a.all_running then running else if a.all_stopped then stopped else stopping;
      }
