-- ===== src/Timer/TimerQueue/Armed.antt =====
-- The time that the alarm is asked for is that of the earliest of the timers that wait.
use project_chat.Common.{
  ℕ, ◌+◌, ◌≡◌, refl, sym, Bool, true, false, ◌&&◌, Option, none, some, List, [], ◌∷◌, arith,
  nat_key, Bool-cases, Option-cases, inl, inr,
}
use project_chat.Common.Map.{find}
use project_chat.Common.KeySet.{contains}
use project_chat.Timer.TimerQueue.{
  Timer, TimerQueue, Entry, new, first_expiration, add_timer_in_loop, submit_timer, remove_timer,
  cancel_in_loop, Action, add, cancel, perform, restart, run_expired, settle_one, settle,
  get_expired, less_expired, mark_active, handle_read, Step, submitted, added, canceled_timer,
  fired, step,
}
use project_chat.Timer.TimerQueue.Order.{
  NoneBefore, Ordered, NoneBefore-trans, insert_entry-Ordered, erase_entry-Ordered,
  less_expired-Ordered, first_expiration-insert_entry, first_expiration-erase_entry,
}

record IsArmed (q : TimerQueue) : Type 0 where
  ordered : Ordered q.timers
  armed : q.alarm ≡ first_expiration q.timers

add_timer_in_loop-Ordered :
    (q : TimerQueue) (t : Timer) → Ordered q.timers → Ordered (add_timer_in_loop q t).timers
unfolding add_timer_in_loop
add_timer_in_loop-Ordered q t o = elim (Bool-cases (contains t.sequence q.pending_cancel)) [
  | inl dropped ↦ rw dropped o
  | inr kept ↦ rw kept (insert_entry-Ordered t.expiration t.sequence q.timers o)
]

cancel_in_loop-Ordered :
    (q : TimerQueue) (s : ℕ) → Ordered q.timers → Ordered (cancel_in_loop q s).timers
unfolding cancel_in_loop remove_timer
cancel_in_loop-Ordered q s o = elim (Option-cases (find s q.timers_owned)) [
  | inl missing ↦
      rw (missing, cancel_in_loop)
        (elim (Bool-cases (contains s q.pending_add_sequences)) [
          | inl waits ↦ rw waits o
          | inr unknown ↦ rw unknown o
        ])
  | inr (t, there) ↦
      rw (there, cancel_in_loop)
        (elim (Bool-cases (q.calling_expired_timers && contains s q.active_expired_timers)) [
          | inl now ↦ rw now o
          | inr later ↦ rw later (erase_entry-Ordered (t.expiration, t.sequence) q.timers o)
        ])
]

add_timer_in_loop-IsArmed :
    (q : TimerQueue) (t : Timer) → IsArmed q → IsArmed (add_timer_in_loop q t)
unfolding add_timer_in_loop
add_timer_in_loop-IsArmed q t a = record {
  ordered = add_timer_in_loop-Ordered q t a.ordered;
  armed = ground (arith, a.armed, first_expiration-insert_entry t.expiration t.sequence q.timers);
}

cancel_in_loop-first :
    (q : TimerQueue) (s : ℕ)
    → q.alarm ≡ first_expiration q.timers
    → (cancel_in_loop q s).alarm ≡ first_expiration (cancel_in_loop q s).timers
unfolding cancel_in_loop remove_timer
cancel_in_loop-first q s h = elim (Option-cases (find s q.timers_owned)) [
  | inl missing ↦ rw (missing, cancel_in_loop) (ground (arith, h))
  | inr (t, there) ↦
      rw (there, cancel_in_loop)
        (ground (arith, h, first_expiration-erase_entry t.expiration t.sequence q.timers))
]

cancel_in_loop-IsArmed : (q : TimerQueue) (s : ℕ) → IsArmed q → IsArmed (cancel_in_loop q s)
cancel_in_loop-IsArmed q s a = record {
  ordered = cancel_in_loop-Ordered q s a.ordered;
  armed = cancel_in_loop-first q s a.armed;
}

perform-Ordered :
    (as' : List Action) (q : TimerQueue) → Ordered q.timers → Ordered (perform as' q).timers
unfolding perform
perform-Ordered [] q o = o
perform-Ordered (add t ∷ as') q o =
    perform-Ordered as' (add_timer_in_loop q t) (add_timer_in_loop-Ordered q t o)
perform-Ordered (cancel s ∷ as') q o =
    perform-Ordered as' (cancel_in_loop q s) (cancel_in_loop-Ordered q s o)

run_expired-Ordered :
    (actions : ℕ → List Action) (es : List Entry) (q : TimerQueue)
    → Ordered q.timers
    → Ordered (run_expired actions es q).1.timers
unfolding run_expired
run_expired-Ordered actions [] q o = o
run_expired-Ordered actions ((e, s) ∷ es) q o =
    let passed = run_expired-Ordered actions es q o in
    let called =
      run_expired-Ordered actions es (perform (actions s) q) (perform-Ordered (actions s) q o) in
    elim (Option-cases (find s q.timers_owned)) [
      | inl missing ↦ rw (missing, run_expired) passed
      | inr (t, there) ↦
          rw (there, run_expired)
            (elim (Bool-cases t.canceled) [ inl over ↦ rw over passed | inr on ↦ rw on called ])
    ]

settle_one-Ordered :
    (now s : ℕ) (q : TimerQueue) → Ordered q.timers → Ordered (settle_one now s q).timers
unfolding settle_one restart
settle_one-Ordered now s q o = elim (Bool-cases (contains s q.canceling_timers)) [
  | inl over ↦ rw over o
  | inr on ↦ rw on (elim (Option-cases (find s q.timers_owned)) [
    | inl missing ↦ rw (missing, settle_one) o
    | inr (t, there) ↦
        rw (there, settle_one)
          (elim (Bool-cases t.canceled) [
            | inl over ↦ rw over o
            | inr kept ↦ rw kept (elim (Bool-cases t.repeat) [
              | inl again ↦ rw again (insert_entry-Ordered (now + t.interval) t.sequence q.timers o)
              | inr once ↦ rw once o
            ])
          ])
  ])
]

settle-Ordered :
    (now : ℕ) (es : List Entry) (q : TimerQueue)
    → Ordered q.timers
    → Ordered (settle now es q).timers
unfolding settle
settle-Ordered now [] q o = o
settle-Ordered now ((e, s) ∷ es) q o =
    settle-Ordered now es (settle_one now s q) (settle_one-Ordered now s q o)

handle_read-IsArmed :
    (q : TimerQueue) (ready : Bool) (now : ℕ) (actions : ℕ → List Action)
    → IsArmed q
    → IsArmed (handle_read q ready now actions).1
unfolding handle_read
handle_read-IsArmed q false now actions a = a
handle_read-IsArmed q true now actions a =
    let expire = get_expired now q.timers in
    let begun : TimerQueue = record q {
      timers = less_expired now q.timers;
      active_expired_timers = mark_active expire q.active_expired_timers;
      calling_expired_timers = true;
      canceling_timers = [];
    } in
    let ended : TimerQueue = record (run_expired actions expire begun).1 {
      calling_expired_timers = false;
    } in
    record {
      ordered =
          settle-Ordered now expire ended (
            run_expired-Ordered actions expire begun (less_expired-Ordered now q.timers a.ordered));
      armed = refl;
    }

-- The queue after a history.
pub after : TimerQueue → List Step → TimerQueue
after q [] = q
after q (x ∷ xs) = after (step q x).1 xs

after-IsArmed : (xs : List Step) (q : TimerQueue) → IsArmed q → IsArmed (after q xs)
unfolding after step submit_timer
after-IsArmed [] q a = a
after-IsArmed (submitted s ∷ xs) q a =
    after-IsArmed xs (submit_timer q s) (record { ordered = a.ordered; armed = a.armed })
after-IsArmed (added t ∷ xs) q a =
    after-IsArmed xs (add_timer_in_loop q t) (add_timer_in_loop-IsArmed q t a)
after-IsArmed (canceled_timer s ∷ xs) q a =
    after-IsArmed xs (cancel_in_loop q s) (cancel_in_loop-IsArmed q s a)
after-IsArmed (fired ready now actions ∷ xs) q a =
    after-IsArmed xs (handle_read q ready now actions).1 (handle_read-IsArmed q ready now actions a)

-- The alarm was asked off exactly when nothing waits, and was asked for the time of an entry before
-- which there is none otherwise.
abbrev pub WakesFor : Option ℕ → List Entry → Type 0
WakesFor none es = es ≡ []
WakesFor (some e) es = (first_expiration es ≡ some e) × NoneBefore e es

wakes_for :
    (fd : Option ℕ) (es : List Entry) → fd ≡ first_expiration es → Ordered es → WakesFor fd es
unfolding first_expiration
wakes_for none [] h o = refl
wakes_for none ((e, s) ∷ es) h o = cc
wakes_for (some d) [] h o = (sym h, tt)
wakes_for (some d) ((e, s) ∷ es) h o =
    (sym h, (ground (arith, h), NoneBefore-trans d e es (ground (arith, h)) o.0))

-- After any history of a new queue the last call of disarmTimerfd or resetTimerfd is a call of
-- disarmTimerfd exactly when no timer waits in the queue, or none was made yet, and otherwise is a
-- call of resetTimerfd with the time of the first entry, before which no entry is due.
pub after-WakesFor : (xs : List Step) → WakesFor (after new xs).alarm (after new xs).timers
unfolding new first_expiration
after-WakesFor xs =
    let a = after-IsArmed xs new (record { ordered = tt; armed = refl }) in
    wakes_for (after new xs).alarm (after new xs).timers a.armed a.ordered
