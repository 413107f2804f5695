-- ===== src/Tests/Threads.antt =====
-- The threads at concrete inputs.
use project_chat.Common.{
  ◌⊎◌, ◌++◌, ℕ, ◌≡◌, ◌≤◌, ◌+◌, refl, true, false, some, [], ◌∷◌, length, arith, Bool, eqb, ◌%◌, ◌^◌,
}
use project_chat.Infra.ThreadSafeQueue.{drain, push, wait_pop, close}
use project_chat.Infra.ThreadPool
use project_chat.Infra.ThreadPool.{
  ThreadPool, ThreadPoolState, stopped, accepted, fresh, enqueue, count_result, start_task,
  leave_task, count_outcome, close_tasks, task_result_from_queue_push_result, stop,
}
use project_chat.Infra.ThreadPool.Interleavings.{
  World, Step, Reach, here, onward, opened, with_accepted,
}
use project_chat.Infra.ThreadPool.Accounting.{accepts, Reach-order, stopped_drained}

-- One worker, one task, and a stop that drains.
abbrev w0 : World ℕ
w0 = opened (fresh 1 4)

abbrev w1 : World ℕ
w1 = record w0 { checked = 1 }

abbrev w2 : World ℕ
w2 = record w1 {
  pool = (enqueue 7 w1.pool).1;
  checked = 0;
  answers = (enqueue 7 w1.pool).0 ∷ w1.answers;
  accepted_tasks = with_accepted (enqueue 7 w1.pool).0 7 w1.accepted_tasks;
}

abbrev w3 : World ℕ
w3 = record w2 { pool = count_result accepted w2.pool; answers = [] }

abbrev w4 : World ℕ
w4 = record w3 {
  pool = record w3.pool { queue = record { items = []; capacity = 4; is_closed = false } };
  idle = 0;
  claimed = 1;
  taken = 7 ∷ [];
}

abbrev w5 : World ℕ
w5 = record w4 { pool = start_task w4.pool; claimed = 0; busy = 1 }

abbrev w6 : World ℕ
w6 = record w5 { pool = leave_task w5.pool; busy = 0; done = true ∷ [] }

abbrev w7 : World ℕ
w7 = record w6 { pool = count_outcome true w6.pool; done = []; idle = 1 }

abbrev w8 : World ℕ
w8 = record w7 { pool = record w7.pool { state = ThreadPoolState.stopping }; stopper = some drain }

abbrev w9 : World ℕ
w9 = record w8 { pool = close_tasks drain w8.pool }

abbrev w10 : World ℕ
w10 = record w9 { idle = 0; exited = 1 }

abbrev w11 : World ℕ
w11 = record w10 { pool = record w10.pool { state = stopped } }

taken_once : Reach w0 w4
unfolding enqueue task_result_from_queue_push_result push wait_pop count_result
taken_once =
    onward {v = w3}
      (onward {v = w2}
        (onward {v = w1} (onward {v = w0} here (Step.check refl)) (Step.push 0 7 refl))
        (Step.count accepted [] [] refl))
      (Step.pop 0 7 _ refl refl)

at_the_end : Reach w0 w11
unfolding enqueue task_result_from_queue_push_result push wait_pop count_result start_task
    leave_task count_outcome close_tasks close
at_the_end =
    onward {v = w10}
      (onward {v = w9}
        (onward {v = w8}
          (onward {v = w7}
            (onward {v = w6}
              (onward {v = w5} (onward {v = w4} taken_once (Step.start 0 refl))
                (Step.finish 0 true refl))
              (Step.outcome true [] [] refl))
            (Step.stop drain refl))
          (Step.close drain refl refl))
        (Step.exit 0 refl refl))
      (Step.join refl refl refl)

stopped_drained_example :
    (w11.taken ≡ w11.accepted_tasks)
    × (w11.pool.queue.items ≡ [])
    × (w11.pool.active_tasks ≡ 0)
    × ((w11.pool.submitted_tasks + accepts w11.answers) % 2 ^ 64
        ≡ (w11.pool.completed_tasks + w11.pool.failed_tasks) % 2 ^ 64)
stopped_drained_example = stopped_drained 1 4 w11 (omega arith) at_the_end refl refl

Reach-order_example :
    (w4.accepted_tasks ≡ w4.taken ++ (w4.dropped ++ w4.pool.queue.items))
    × ((w4.pool.queue.capacity ≡ 0) ⊎ (length w4.pool.queue.items ≤ w4.pool.queue.capacity))
Reach-order_example = Reach-order 1 4 w4 (omega arith) taken_once

abbrev odd : ℕ → Bool
odd n = eqb (n % 2) 1

-- Two tasks wait.
abbrev loaded : ThreadPool ℕ
loaded = record (fresh 1 4) {
  queue = record { items = 7 ∷ 8 ∷ []; capacity = 4; is_closed = false };
  submitted_tasks = 2;
}
