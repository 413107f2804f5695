-- ===== src/Infra/ThreadPool.antt =====
-- src/infra/thread/ThreadPool.cpp, and the rest of include/infra/thread/ThreadTypes.h. A pool is
-- its queue, its state and its counters; the accesses to an atomic are steps of their own, and
-- `submit`, `worker_thread` and `stop` are their sequences. A task is a value; whether it returns
-- or throws is `outcome`. The log is left out.
pub mod Interleavings
pub mod Order
pub mod Accounting
pub mod Stopping
use project_chat.Common.{
  ℕ, zero, suc, ◌+◌, ◌-◌, ◌%◌, ◌^◌, Bool, true, false, Option, none, some, [], ◌∷◌, length, eqb,
  if◌then◌else◌,
}
use project_chat.Infra.ThreadSafeQueue
use project_chat.Infra.ThreadSafeQueue.{
  ThreadSafeQueue, QueuePushResult, QueueCloseMode, asleep, ended, popped, push, wait_pop, close,
}

pub data ThreadPoolState : Type 0 where
  running stopping stopped : ThreadPoolState

pub data TaskSubmitResult : Type 0 where
  accepted queue_full stopping invalid_task : TaskSubmitResult

unfoldable pub task_result_from_queue_push_result : QueuePushResult → TaskSubmitResult
task_result_from_queue_push_result QueuePushResult.ok = accepted
task_result_from_queue_push_result QueuePushResult.full = queue_full
task_result_from_queue_push_result QueuePushResult.closed = TaskSubmitResult.stopping

pub record ThreadPool (T : Type 0) : Type 0 where
  pub state : ThreadPoolState
  pub queue : ThreadSafeQueue T
  pub worker_count : ℕ
  pub active_tasks : ℕ
  pub submitted_tasks : ℕ
  pub completed_tasks : ℕ
  pub failed_tasks : ℕ
  pub rejected_full : ℕ
  pub rejected_stopped : ℕ

-- `fetch_add(1)` and `fetch_sub(1)` on 64 bits.
abbrev pub add_one : ℕ → ℕ
add_one n = (n + 1) % 2 ^ 64

abbrev pub sub_one : ℕ → ℕ
sub_one n = (n + (2 ^ 64 - 1)) % 2 ^ 64

abbrev pub is_running : ThreadPoolState → Bool
is_running running = true
is_running _ = false

module _ {T : Type 0} where
  abbrev pub fresh : ℕ → ℕ → ThreadPool T
  fresh n capacity = record {
    state = running;
    queue = record { items = []; capacity = capacity; is_closed = false };
    worker_count = n;
    active_tasks = 0;
    submitted_tasks = 0;
    completed_tasks = 0;
    failed_tasks = 0;
    rejected_full = 0;
    rejected_stopped = 0;
  }

  -- The constructor: no pool without a thread.
  pub new : ℕ → ℕ → Option (ThreadPool T)
  new thread_count capacity =
      if eqb thread_count 0 then none else some (fresh thread_count capacity)

  unfoldable pub enqueue : T → ThreadPool T → TaskSubmitResult × ThreadPool T
  unfolding task_result_from_queue_push_result
  enqueue task p =
      let (result, queue) = push task p.queue in
      (task_result_from_queue_push_result result, record p { queue = queue })

  unfoldable pub count_result : TaskSubmitResult → ThreadPool T → ThreadPool T
  count_result accepted p = record p { submitted_tasks = add_one p.submitted_tasks }
  count_result queue_full p = record p { rejected_full = add_one p.rejected_full }
  count_result TaskSubmitResult.stopping p = record p {
    rejected_stopped = add_one p.rejected_stopped;
  }
  count_result invalid_task p = p

  pub submit : Option T → ThreadPool T → TaskSubmitResult × ThreadPool T
  unfolding enqueue count_result
  submit none p = (invalid_task, p)
  submit (some task) p =
      if is_running p.state
      then (let (result, pushed) = enqueue task p in (result, count_result result pushed))
      else (TaskSubmitResult.stopping, p)

  unfoldable pub start_task : ThreadPool T → ThreadPool T
  start_task p = record p { active_tasks = add_one p.active_tasks }

  unfoldable pub leave_task : ThreadPool T → ThreadPool T
  leave_task p = record p { active_tasks = sub_one p.active_tasks }

  unfoldable pub count_outcome : Bool → ThreadPool T → ThreadPool T
  count_outcome true p = record p { completed_tasks = add_one p.completed_tasks }
  count_outcome false p = record p { failed_tasks = add_one p.failed_tasks }

  -- One turn of the loop in `workerThread`, when the wait does not end the loop.
  pub run_task : (T → Bool) → T → ThreadSafeQueue T → ThreadPool T → ThreadPool T
  unfolding start_task leave_task count_outcome
  run_task outcome task queue p =
      count_outcome (outcome task) (leave_task (start_task (record p { queue = queue })))

  -- `workerThread`, up to where it ends (`true`) or sleeps (`false`), on fuel.
  pub worker_thread : (T → Bool) → ℕ → ThreadPool T → Bool × ThreadPool T
  unfolding run_task
  worker_thread outcome zero p = (false, p)
  worker_thread outcome (suc fuel) p = elim (wait_pop p.queue) [
    | asleep ↦ (false, p)
    | ended ↦ (true, p)
    | popped task queue ↦ worker_thread outcome fuel (run_task outcome task queue p)
  ]

  unfoldable pub close_tasks : QueueCloseMode → ThreadPool T → ThreadPool T
  close_tasks mode p = record p { queue = close mode p.queue }

  -- `stop` by a caller that meets no other stop on its way. The joins wait for the workers, which
  -- run what is left: the state is `stopped` only when they have ended, and stays `stopping` when a
  -- worker sleeps, since its join does not come back. The turns are one more than the tasks in the
  -- queue.
  pub stop : (T → Bool) → QueueCloseMode → ThreadPool T → ThreadPool T
  unfolding close_tasks worker_thread
  stop outcome mode p = elim p.state [
    | stopped ↦ p
    | ThreadPoolState.stopping ↦ p
    | running ↦
        let closing : ThreadPool T =
          close_tasks mode (record p { state = ThreadPoolState.stopping }) in
        let (ended_all, after) = worker_thread outcome (suc (length closing.queue.items)) closing in
        if ended_all then record after { state = stopped } else after
  ]
