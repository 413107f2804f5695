-- ===== src/Infra/ThreadPool/Accounting.antt =====
-- What holds of a pool however its threads interleave: the order of its tasks and their count.
use mathlib.Core.List.{append-nil}
use project_chat.Common.{
  ◌⊎◌, eqb_iff, ℕ, suc, ◌+◌, ◌%◌, ◌^◌, ◌≤◌, ◌<◌, ◌≡◌, ◌∙◌, sym, ap, Bool, true, false, some, List,
  [], ◌∷◌, ◌++◌, length, length-append, arith,
}
use project_chat.Infra.ThreadSafeQueue.{ThreadSafeQueue, drain}
use project_chat.Infra.ThreadPool.{
  TaskSubmitResult, accepted, stopped, enqueue, count_result, start_task, leave_task, count_outcome,
  close_tasks, fresh,
}
use project_chat.Infra.ThreadPool.Order.{run-Ordered, opened-Ordered}
use project_chat.Infra.ThreadPool.Interleavings.{
  World, Step, check, push, count, pop, exit, start, finish, outcome, stop, close, join, Reach,
  here, onward, opened, with_accepted,
}

-- How many of the answers are acceptances.
pub accepts : List TaskSubmitResult → ℕ
accepts [] = 0
accepts (accepted ∷ rs) = suc (accepts rs)
accepts (_ ∷ rs) = accepts rs

accepts-append : (rs ss : List TaskSubmitResult) → accepts (rs ++ ss) ≡ accepts rs + accepts ss
unfolding accepts
accepts-append [] ss = omega arith
accepts-append (accepted ∷ rs) ss = omega (arith, accepts-append rs ss)
accepts-append (TaskSubmitResult.queue_full ∷ rs) ss = accepts-append rs ss
accepts-append (TaskSubmitResult.stopping ∷ rs) ss = accepts-append rs ss
accepts-append (TaskSubmitResult.invalid_task ∷ rs) ss = accepts-append rs ss

answers_before :
    (r : TaskSubmitResult) (xs ys zs : List TaskSubmitResult)
    → zs ≡ xs ++ r ∷ ys
    → accepts zs ≡ accepts (r ∷ []) + accepts (xs ++ ys)
answers_before r xs ys zs h = omega (
  arith,
  ap accepts h,
  accepts-append xs (r ∷ ys),
  accepts-append xs ys,
  accepts-append (r ∷ []) ys,
)

module _ {T : Type 0} where
  -- The counters, each up to the threads that are about to change it.
  record Counted (w : World T) : Type 0 where
    active : w.pool.active_tasks ≡ w.busy % 2 ^ 64
    outcomes :
        (w.pool.completed_tasks + w.pool.failed_tasks + w.claimed + w.busy + length w.done) % 2 ^ 64
        ≡ length w.taken % 2 ^ 64
    submissions :
        (w.pool.submitted_tasks + accepts w.answers) % 2 ^ 64 ≡ length w.accepted_tasks % 2 ^ 64
    narrow : w.pool.submitted_tasks < 2 ^ 64

  pushed-Counted :
      (v : World T) (n : ℕ) (t : T) (r : TaskSubmitResult) (q : ThreadSafeQueue T)
      → Counted v
      → Counted (record v {
        pool = record v.pool { queue = q };
        checked = n;
        answers = r ∷ v.answers;
        accepted_tasks = with_accepted r t v.accepted_tasks;
      })
  unfolding accepts
  pushed-Counted v n t accepted q c =
      ground (arith, c.submissions, length-append v.accepted_tasks (t ∷ []))
  pushed-Counted v n t TaskSubmitResult.queue_full q c = ground arith
  pushed-Counted v n t TaskSubmitResult.stopping q c = ground arith
  pushed-Counted v n t TaskSubmitResult.invalid_task q c = ground arith

  count_result-Counted :
      (v : World T) (r : TaskSubmitResult) (rs : List TaskSubmitResult)
      → Counted v
      → accepts v.answers ≡ accepts (r ∷ []) + accepts rs
      → Counted (record v { pool = count_result r v.pool; answers = rs })
  unfolding count_result accepts
  count_result-Counted v accepted rs c e = ground arith
  count_result-Counted v TaskSubmitResult.queue_full rs c e = ground arith
  count_result-Counted v TaskSubmitResult.stopping rs c e = ground arith
  count_result-Counted v TaskSubmitResult.invalid_task rs c e = ground arith

  ended-Counted :
      (v : World T) (b : Bool) (bs : List Bool)
      → Counted v
      → length v.done ≡ suc (length bs)
      → Counted (record v { pool = count_outcome b v.pool; done = bs; idle = suc v.idle })
  unfolding count_outcome
  ended-Counted v true bs c e = ground arith
  ended-Counted v false bs c e = ground arith

  step-Counted : {v w : World T} → Step v w → Counted v → Counted w
  unfolding start_task leave_task enqueue close_tasks
  step-Counted (check h) c = ground arith
  step-Counted (push n t h) c = pushed-Counted _ n t _ _ c
  step-Counted (count r xs ys h) c =
      count_result-Counted _ r (xs ++ ys) c (answers_before r xs ys _ h)
  step-Counted {v} (pop n t q h e) c = ground (arith, length-append v.taken (t ∷ []))
  step-Counted (exit n h e) c = ground arith
  step-Counted (start n h) c = ground arith
  step-Counted (finish n b h) c = ground arith
  step-Counted (outcome b xs ys h) c =
      ended-Counted _ b (xs ++ ys) c
        (omega (arith, ap length h, length-append xs (b ∷ ys), length-append xs ys))
  step-Counted (stop mode h) c = ground arith
  step-Counted (close mode h e) c = ground arith
  step-Counted (join h e k) c = ground arith

  run-Counted : {v w : World T} → Reach v w → Counted v → Counted w
  run-Counted here c = c
  run-Counted (onward r s) c = step-Counted s (run-Counted r c)

  opened-Counted : (n capacity : ℕ) → Counted (opened (fresh n capacity))
  unfolding accepts
  opened-Counted n capacity = ground arith

  -- However the threads of a pool with at least one worker interleave, its tasks leave the queue
  -- in the order in which they were accepted, each once; a stop may throw away only the ones
  -- behind these; and the queue keeps to its capacity, when that is not 0.
  pub Reach-order :
      (n capacity : ℕ) (w : World T)
      → 0 < n
      → Reach (opened (fresh n capacity)) w
      → (w.accepted_tasks ≡ w.taken ++ (w.dropped ++ w.pool.queue.items))
        × ((w.pool.queue.capacity ≡ 0) ⊎ (length w.pool.queue.items ≤ w.pool.queue.capacity))
  Reach-order n capacity w some_worker r =
      let o = run-Ordered r (opened-Ordered n capacity some_worker) in
      (o.order, ground (arith, o.bounded, eqb_iff w.pool.queue.capacity 0))

  -- Once a pool of at least one worker that was stopped in the drain mode is in the state
  -- stopped, however its threads interleaved, all its accepted tasks were taken by workers, none
  -- is left in the queue, and none is active; and the tasks submitted, with those that were
  -- accepted and are not yet counted by their submitters, are those completed and those failed,
  -- in the 64 bits of the counters.
  pub stopped_drained :
      (n capacity : ℕ) (w : World T)
      → 0 < n
      → Reach (opened (fresh n capacity)) w
      → w.pool.state ≡ stopped
      → w.stopper ≡ some drain
      → (w.taken ≡ w.accepted_tasks)
        × (w.pool.queue.items ≡ [])
        × (w.pool.active_tasks ≡ 0)
        × ((w.pool.submitted_tasks + accepts w.answers) % 2 ^ 64
            ≡ (w.pool.completed_tasks + w.pool.failed_tasks) % 2 ^ 64)
  stopped_drained n capacity w some_worker r e d =
      let o = run-Ordered r (opened-Ordered n capacity some_worker) in
      let c = run-Counted r (opened-Counted n capacity) in
      let all_out = o.gone e in
      let none_left : w.pool.queue.items ≡ [] = (o.over (omega (arith, o.manned, all_out))).1 in
      let all_taken : w.accepted_tasks ≡ w.taken =
        o.order ∙ rw (o.kept d, none_left) (append-nil w.taken) in
      let same_length : length w.accepted_tasks ≡ length w.taken = ap length all_taken in
      (
        sym all_taken,
        none_left,
        omega (arith, c.active, o.staffed, all_out),
        omega (arith, c.outcomes, c.submissions, o.staffed, all_out, same_length),
      )
