-- ===== src/Infra/ThreadPool/Order.antt =====
-- Where the tasks are, however the threads interleave.
use mathlib.Core.List.{append_assoc, append-nil}
use project_chat.Common.{
  ℕ, suc, ◌+◌, ◌≤◌, ◌<◌, ◌≡◌, ◌∙◌, sym, ap, Bool, true, false, none, some, List, [], ◌∷◌, ◌++◌,
  length, length-append, arith, eqb, leb, not, ◌&&◌, Bool-cases, inl, inr,
}
use project_chat.Infra.ThreadSafeQueue.{
  ThreadSafeQueue, QueueCloseMode, drain, discard, ended, popped, wait_pop,
}
use project_chat.Infra.ThreadSafeQueue
use project_chat.Infra.ThreadPool.{
  ThreadPoolState, TaskSubmitResult, accepted, running, stopped, enqueue, count_result, start_task,
  leave_task, count_outcome, close_tasks, fresh, task_result_from_queue_push_result,
}
use project_chat.Infra.ThreadPool.Interleavings.{
  World, Step, check, push, count, pop, exit, start, finish, outcome, stop, close, join, Reach,
  here, onward, opened, with_accepted, lost,
}

module _ {T : Type 0} where
  -- The tasks are where they should be, and a worker is out of its loop only when no task is left.
  pub record Ordered (w : World T) : Type 0 where
    pub order : w.accepted_tasks ≡ w.taken ++ (w.dropped ++ w.pool.queue.items)
    pub bounded :
        eqb w.pool.queue.capacity 0 ≡ false → length w.pool.queue.items ≤ w.pool.queue.capacity
    pub unclosed : w.pool.queue.is_closed ≡ false → w.dropped ≡ []
    pub last : (t : T) (ts : List T) → w.pool.queue.items ≡ t ∷ ts → w.dropped ≡ []
    pub fresh : w.pool.state ≡ running → w.stopper ≡ none
    pub before : w.stopper ≡ none → w.dropped ≡ []
    pub kept : w.stopper ≡ some drain → w.dropped ≡ []
    pub over : 1 ≤ w.exited → (w.pool.queue.is_closed ≡ true) × (w.pool.queue.items ≡ [])
    pub staffed : w.idle + w.claimed + w.busy + length w.done + w.exited ≡ w.pool.worker_count
    pub manned : 0 < w.pool.worker_count
    pub gone : w.pool.state ≡ stopped → w.exited ≡ w.pool.worker_count

  counted-Ordered :
      (v : World T) (r : TaskSubmitResult)
      → Ordered v
      → (xs : List TaskSubmitResult)
      → Ordered (record v { pool = count_result r v.pool; answers = xs })
  unfolding count_result
  counted-Ordered v accepted o xs = ground arith
  counted-Ordered v TaskSubmitResult.queue_full o xs = ground arith
  counted-Ordered v TaskSubmitResult.stopping o xs = ground arith
  counted-Ordered v TaskSubmitResult.invalid_task o xs = ground arith

  ended-Ordered :
      (v : World T) (b : Bool) (xs : List Bool)
      → length v.done ≡ suc (length xs)
      → Ordered v
      → Ordered (record v { pool = count_outcome b v.pool; done = xs; idle = suc v.idle })
  unfolding count_outcome
  ended-Ordered v true xs e o = ground arith
  ended-Ordered v false xs e o = ground arith

  pushed-Ordered :
      (v : World T) (n : ℕ) (t : T)
      → Ordered v
      → Ordered (record v {
        pool = (enqueue t v.pool).1;
        checked = n;
        answers = (enqueue t v.pool).0 ∷ v.answers;
        accepted_tasks = with_accepted (enqueue t v.pool).0 t v.accepted_tasks;
      })
  unfolding enqueue ThreadSafeQueue.push task_result_from_queue_push_result
  pushed-Ordered v n t o = elim (Bool-cases v.pool.queue.is_closed) [
    | inl shut ↦ rw shut (ground arith)
    | inr open_still ↦
        rw open_still
          (elim (Bool-cases (
            not (eqb v.pool.queue.capacity 0)
            && leb v.pool.queue.capacity (length v.pool.queue.items))) [
              | inl full ↦ rw full (ground arith)
              | inr room ↦ rw room (record {
                order =
                    ap (λ ts. ts ++ (t ∷ [])) o.order
                    ∙ append_assoc v.taken _ _
                    ∙ ap (◌++◌ v.taken) (append_assoc v.dropped v.pool.queue.items (t ∷ []));
                bounded = λ h.
                    ground (arith, room, length-append v.pool.queue.items (t ∷ []), o.bounded h);
                unclosed = λ h. o.unclosed open_still;
                last = λ u us e. o.unclosed open_still;
                fresh = o.fresh;
                before = o.before;
                kept = o.kept;
                over = λ h. ground (arith, o.over h, open_still);
                staffed = o.staffed;
                manned = o.manned;
                gone = o.gone;
              })
            ])
  ]

  popped_items :
      (p q : ThreadSafeQueue T) (t : T)
      → wait_pop p ≡ popped t q
      → (p.items ≡ t ∷ q.items) × (q.is_closed ≡ p.is_closed) × (q.capacity ≡ p.capacity)
  unfolding wait_pop
  popped_items p q t e = ground arith

  popped-Ordered :
      (v : World T) (n : ℕ) (t : T) (q : ThreadSafeQueue T)
      → v.idle ≡ suc n
      → Ordered v
      → wait_pop v.pool.queue ≡ popped t q
      → Ordered (record v {
        pool = record v.pool { queue = q };
        idle = n;
        claimed = suc v.claimed;
        taken = v.taken ++ (t ∷ []);
      })
  popped-Ordered v n t q idle o e =
      let (items, closedness, capacity) = popped_items v.pool.queue q t e in
      let none_lost = o.last t q.items items in
      record {
        order =
            o.order
            ∙ ap (λ ts. v.taken ++ (v.dropped ++ ts)) items
            ∙ rw none_lost (sym (append_assoc v.taken (t ∷ []) q.items));
        bounded = λ h. ground (arith, items, capacity, o.bounded);
        unclosed = λ h. none_lost;
        last = λ u us h. none_lost;
        fresh = o.fresh;
        before = o.before;
        kept = o.kept;
        over = λ h. ground (arith, o.over h, items);
        staffed = omega (arith, o.staffed, idle);
        manned = o.manned;
        gone = o.gone;
      }

  closed-Ordered :
      (v : World T) (mode : QueueCloseMode)
      → Ordered v
      → v.pool.state ≡ ThreadPoolState.stopping
      → v.stopper ≡ some mode
      → Ordered (record v {
        pool = close_tasks mode v.pool;
        dropped = v.dropped ++ lost mode v.pool.queue.is_closed v.pool.queue.items;
      })
  unfolding close_tasks ThreadSafeQueue.close
  closed-Ordered v drain o h e = elim (Bool-cases v.pool.queue.is_closed) [
    | inl shut ↦ rw (shut, append-nil v.dropped) (ground arith)
    | inr open_still ↦ rw (open_still, append-nil v.dropped) (ground arith)
  ]
  closed-Ordered v discard o h e = elim (Bool-cases v.pool.queue.is_closed) [
    | inl shut ↦ rw (shut, append-nil v.dropped) (ground arith)
    | inr open_still ↦
        rw (open_still, o.unclosed open_still) (ground (arith, append-nil v.pool.queue.items))
  ]

  ended_queue : (q : ThreadSafeQueue T) → wait_pop q ≡ ended → (q.is_closed ≡ true) × (q.items ≡ [])
  unfolding wait_pop
  ended_queue q e = ground arith

  step-Ordered : {v w : World T} → Step v w → Ordered v → Ordered w
  unfolding start_task leave_task
  step-Ordered (check h) o = ground arith
  step-Ordered (push n t h) o = pushed-Ordered _ n t o
  step-Ordered (count r xs ys h) o = counted-Ordered _ r o _
  step-Ordered (pop n t q h e) o = popped-Ordered _ n t q h o e
  step-Ordered (exit n h e) o =
      let (shut, none_left) = ended_queue _ e in
      record {
        order = o.order;
        bounded = o.bounded;
        unclosed = o.unclosed;
        last = o.last;
        fresh = o.fresh;
        before = o.before;
        kept = o.kept;
        over = λ k. (shut, none_left);
        staffed = omega (arith, o.staffed, h);
        manned = o.manned;
        gone = λ k. omega (arith, o.staffed, o.gone k, h);
      }
  step-Ordered (start n h) o = ground arith
  step-Ordered (finish n b h) o = ground arith
  step-Ordered (outcome b xs ys h) o =
      ended-Ordered _ b _
        (omega (arith, ap length h, length-append xs (b ∷ ys), length-append xs ys)) o
  step-Ordered (stop mode h) o = ground arith
  step-Ordered (close mode h e) o = closed-Ordered _ mode o h e
  step-Ordered (join h c e) o = ground arith

  pub run-Ordered : {v w : World T} → Reach v w → Ordered v → Ordered w
  run-Ordered here o = o
  run-Ordered (onward r s) o = step-Ordered s (run-Ordered r o)

  pub opened-Ordered : (n capacity : ℕ) → 0 < n → Ordered (opened (fresh n capacity))
  opened-Ordered n capacity h = ground arith
