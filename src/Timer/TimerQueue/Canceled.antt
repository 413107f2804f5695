-- ===== src/Timer/TimerQueue/Canceled.antt =====
-- A timer that was canceled is not called any more.
use project_chat.Common.{
  ℕ, ◌+◌, ◌≡◌, refl, Bool, true, false, not, ◌&&◌, none, some, List, [], ◌∷◌, ◌++◌, arith, eqb,
  eqb_iff, if◌then◌else◌, nat_key, Bool-cases, Option-cases, inl, inr,
}
use project_chat.Common.Map
use project_chat.Common.Map.{Map, find, assign, find-assign, find-erase}
use project_chat.Common.Counts.{mem}
use project_chat.Timer.TimerQueue.{
  Timer, TimerQueue, Entry, add_timer_in_loop, submit_timer, remove_timer, cancel_in_loop, Action,
  add, cancel, perform, restart, run_expired, settle_one, settle, get_expired, less_expired,
  mark_active, handle_read, Step, submitted, added, canceled_timer, fired, step,
}

-- There is a timer of that sequence that is not canceled.
pub alive_in : ℕ → Map ℕ Timer → Bool
alive_in s owned = elim (find s owned) [ none ↦ false | some t ↦ not t.canceled ]

abbrev pub alive : ℕ → TimerQueue → Bool
alive s q = alive_in s q.timers_owned

-- The sequence is not given to another timer, as the counter of timers sees to.
abbrev pub Spares : ℕ → List Action → Type 0
Spares s [] = Unit
Spares s (add t ∷ as') = (eqb t.sequence s ≡ false) × Spares s as'
Spares s (cancel r ∷ as') = Spares s as'

abbrev pub SparesStep : ℕ → Step → Type 0
SparesStep s (added t) = eqb t.sequence s ≡ false
SparesStep s (fired ready now actions) = (r : ℕ) → Spares s (actions r)
SparesStep s _ = Unit

-- The sequences that are called over a history.
pub called : TimerQueue → List Step → List ℕ
called q [] = []
called q (x ∷ xs) = (step q x).0 ++ called (step q x).1 xs

abbrev pub SparesAll : ℕ → List Step → Type 0
SparesAll s [] = Unit
SparesAll s (x ∷ xs) = SparesStep s x × SparesAll s xs

module _ (s : ℕ) where
  alive_in-erase :
      (r : ℕ) (owned : Map ℕ Timer)
      → alive_in s (Map.erase r owned) ≡ (not (eqb r s) && alive_in s owned)
  unfolding alive_in
  alive_in-erase r owned = ground (arith, find-erase r s owned)

  alive_in-assign :
      (r : ℕ) (t : Timer) (owned : Map ℕ Timer)
      → alive_in s (assign r t owned) ≡ (if eqb r s then not t.canceled else alive_in s owned)
  unfolding alive_in
  alive_in-assign r t owned = ground (arith, find-assign r s t owned)

  alive_in_missing : (owned : Map ℕ Timer) → find s owned ≡ none → alive_in s owned ≡ false
  unfolding alive_in
  alive_in_missing owned e = rw (e, alive_in) refl

  alive-add :
      (q : TimerQueue) (t : Timer)
      → eqb t.sequence s ≡ false
      → alive s q ≡ false
      → alive s (add_timer_in_loop q t) ≡ false
  unfolding add_timer_in_loop
  alive-add q t other dead =
      ground (arith, other, dead, alive_in-assign t.sequence t q.timers_owned)

  -- To cancel a sequence is to end it, and nothing else.
  alive-cancel :
      (q : TimerQueue) (r : ℕ) → alive s (cancel_in_loop q r) ≡ (not (eqb r s) && alive s q)
  unfolding cancel_in_loop remove_timer
  alive-cancel q r = elim (Option-cases (find r q.timers_owned)) [
    | inl missing ↦
        rw (missing, cancel_in_loop)
          (ground (arith, eqb_iff r s, alive_in_missing q.timers_owned, missing))
    | inr (t, there) ↦
        rw (there, cancel_in_loop)
          (ground (
            arith,
            alive_in-erase r q.timers_owned,
            alive_in-assign r (record t { canceled = true }) q.timers_owned,
          ))
  ]

  alive-perform :
      (as' : List Action) (q : TimerQueue)
      → Spares s as'
      → alive s q ≡ false
      → alive s (perform as' q) ≡ false
  unfolding perform
  alive-perform [] q spares dead = dead
  alive-perform (add t ∷ as') q spares dead =
      alive-perform as' (add_timer_in_loop q t) spares.1 (alive-add q t spares.0 dead)
  alive-perform (cancel r ∷ as') q spares dead =
      alive-perform as' (cancel_in_loop q r) spares (ground (arith, dead, alive-cancel q r))

  alive_in_found :
      (t : Timer) (owned : Map ℕ Timer)
      → find s owned ≡ some t
      → alive_in s owned ≡ false
      → t.canceled ≡ true
  unfolding alive_in
  alive_in_found t owned e dead = let e' = rw (e, alive_in) at dead in ground (arith, e')

  -- Neither called nor brought back by the callbacks of the others.
  run_expired-alive :
      (actions : ℕ → List Action) (es : List Entry) (q : TimerQueue)
      → ((r : ℕ) → Spares s (actions r))
      → alive s q ≡ false
      → (mem s (run_expired actions es q).0 ≡ false)
        × (alive s (run_expired actions es q).1 ≡ false)
  unfolding run_expired
  run_expired-alive actions [] q spares dead = (refl, dead)
  run_expired-alive actions ((e, r) ∷ es) q spares dead =
      let passed = run_expired-alive actions es q spares dead in
      let called =
        run_expired-alive actions es (perform (actions r) q) spares
          (alive-perform (actions r) q (spares r) dead) in
      elim (Option-cases (find r q.timers_owned)) [
        | inl missing ↦ rw (missing, run_expired) passed
        | inr (t, there) ↦
            rw (there, run_expired)
              (elim (Bool-cases t.canceled) [
                | inl over ↦ rw over passed
                | inr on ↦ rw on (
                  ground (
                    arith,
                    called.0,
                    on,
                    there,
                    dead,
                    eqb_iff r s,
                    alive_in_found t q.timers_owned,
                  ),
                  called.1,
                )
              ])
      ]

  settle_one-alive :
      (now r : ℕ) (q : TimerQueue) → alive s q ≡ false → alive s (settle_one now r q) ≡ false
  unfolding settle_one restart
  settle_one-alive now r q dead =
      let erased = alive_in-erase r q.timers_owned in
      elim (Option-cases (find r q.timers_owned)) [
        | inl missing ↦ rw (missing, settle_one) (ground (arith, dead, erased))
        | inr (t, there) ↦
            rw (there, settle_one)
              (ground (
                arith,
                dead,
                erased,
                there,
                eqb_iff r s,
                alive_in_found t q.timers_owned,
                alive_in-assign r (record t { expiration = now + t.interval }) q.timers_owned,
              ))
      ]

  settle-alive :
      (now : ℕ) (es : List Entry) (q : TimerQueue)
      → alive s q ≡ false
      → alive s (settle now es q) ≡ false
  unfolding settle
  settle-alive now [] q dead = dead
  settle-alive now ((e, r) ∷ es) q dead =
      settle-alive now es (settle_one now r q) (settle_one-alive now r q dead)

  handle_read-alive :
      (q : TimerQueue) (ready : Bool) (now : ℕ) (actions : ℕ → List Action)
      → ((r : ℕ) → Spares s (actions r))
      → alive s q ≡ false
      → (mem s (handle_read q ready now actions).0 ≡ false)
        × (alive s (handle_read q ready now actions).1 ≡ false)
  unfolding handle_read
  handle_read-alive q false now actions spares dead = (refl, dead)
  handle_read-alive q true now actions spares dead =
      let expire = get_expired now q.timers in
      let begun : TimerQueue = record q {
        timers = less_expired now q.timers;
        active_expired_timers = mark_active expire q.active_expired_timers;
        calling_expired_timers = true;
        canceling_timers = [];
      } in
      let called = run_expired-alive actions expire begun spares dead in
      let ended : TimerQueue = record (run_expired actions expire begun).1 {
        calling_expired_timers = false;
      } in
      (called.0, settle-alive now expire ended called.1)

  mem-append : (xs ys : List ℕ) → mem s xs ≡ false → mem s ys ≡ false → mem s (xs ++ ys) ≡ false
  mem-append [] ys h k = k
  mem-append (x ∷ xs) ys h k = ground (arith, h, k, mem-append xs ys)

  step-alive :
      (q : TimerQueue) (x : Step)
      → SparesStep s x
      → alive s q ≡ false
      → (mem s (step q x).0 ≡ false) × (alive s (step q x).1 ≡ false)
  unfolding step submit_timer
  step-alive q (submitted r) spares dead = (refl, dead)
  step-alive q (added t) spares dead = (refl, alive-add q t spares dead)
  step-alive q (canceled_timer r) spares dead = (refl, ground (arith, dead, alive-cancel q r))
  step-alive q (fired ready now actions) spares dead =
      handle_read-alive q ready now actions spares dead

  called-alive :
      (xs : List Step) (q : TimerQueue)
      → SparesAll s xs
      → alive s q ≡ false
      → mem s (called q xs) ≡ false
  unfolding called
  called-alive [] q spares dead = refl
  called-alive (x ∷ xs) q spares dead =
      let (quiet, dead') = step-alive q x spares.0 dead in
      mem-append (step q x).0 (called (step q x).1 xs) quiet
        (called-alive xs (step q x).1 spares.1 dead')

  -- After a timer is canceled, in any state of the queue, its callback is not called over any
  -- later additions, cancellations and expiries, the calls that callbacks make included, as long
  -- as no timer is added under its sequence.
  pub called_after_cancel :
      (q : TimerQueue) (xs : List Step)
      → SparesAll s xs
      → mem s (called (cancel_in_loop q s) xs) ≡ false
  called_after_cancel q xs spares =
      called-alive xs (cancel_in_loop q s) spares (ground (arith, alive-cancel q s, eqb_iff s s))
