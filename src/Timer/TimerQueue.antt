-- ===== src/Timer/TimerQueue.antt =====
-- src/timer/TimerQueue.cpp and src/timer/Timer.cpp. `alarm` is the time that `resetTimerfd` was last
-- called with, and `none` after `disarmTimerfd`. What those two do with it is left out: the time from
-- now, of 1 ms at least, is handed to `timerfd_settime`, whose failure is logged and changes nothing
-- in the queue. A callback is the list of the calls it makes. What another thread does is a step of
-- its own.
pub mod Canceled
pub mod Order
pub mod Armed
use project_chat.Common.{
  ℕ, ◌+◌, Bool, true, false, not, ◌&&◌, ◌||◌, Option, none, some, List, [], ◌∷◌, ltb, leb, eqb,
  if◌then◌else◌, nat_key,
}
use project_chat.Common.Map
use project_chat.Common.Map.{Map, find, assign, has}
use project_chat.Common.KeySet
use project_chat.Common.KeySet.{KeySet, contains, insert}

pub record Timer : Type 0 where
  pub sequence : ℕ
  pub expiration : ℕ
  pub interval : ℕ
  pub repeat : Bool
  pub canceled : Bool

-- Of a timer that repeats.
pub restart : Timer → ℕ → Timer
restart t now = record t { expiration = now + t.interval }

-- An expiration and a sequence.
abbrev pub Entry : Type 0
Entry = ℕ × ℕ

pub record TimerQueue : Type 0 where
  pub timers : List Entry
  pub alarm : Option ℕ
  pub calling_expired_timers : Bool
  pub active_expired_timers : KeySet ℕ
  pub canceling_timers : KeySet ℕ
  pub pending_cancel : KeySet ℕ
  pub pending_add_sequences : KeySet ℕ
  pub timers_owned : Map ℕ Timer

pub new : TimerQueue
new = record {
  timers = [];
  alarm = none;
  calling_expired_timers = false;
  active_expired_timers = [];
  canceling_timers = [];
  pending_cancel = [];
  pending_add_sequences = [];
  timers_owned = [];
}

abbrev pub same_entry : Entry → Entry → Bool
same_entry (e, s) (e', s') = eqb e e' && eqb s s'

-- `std::set` keeps the entries in order, each once.
pub insert_entry : Entry → List Entry → List Entry
insert_entry (e, s) [] = (e, s) ∷ []
insert_entry (e, s) ((e', s') ∷ es) =
    let rest = insert_entry (e, s) es in
    if ltb e e' || (eqb e e' && ltb s s')
    then (e, s) ∷ (e', s') ∷ es
    else if same_entry (e, s) (e', s')
    then (e', s') ∷ es
    else (e', s') ∷ rest

pub erase_entry : Entry → List Entry → List Entry
erase_entry x [] = []
erase_entry x (y ∷ ys) = let rest = erase_entry x ys in if same_entry x y then rest else y ∷ rest

-- `timers_.begin()->first`, for `resetTimerfd`; `none` is `disarmTimerfd`.
pub first_expiration : List Entry → Option ℕ
first_expiration [] = none
first_expiration ((e, s) ∷ es) = some e

pub earlier : ℕ → List Entry → Bool
earlier e [] = true
earlier e ((e', s) ∷ es) = ltb e e'

pub is_first : ℕ → List Entry → Bool
is_first s [] = false
is_first s ((e, s') ∷ es) = eqb s s'

pub add_timer_in_loop : TimerQueue → Timer → TimerQueue
unfolding insert_entry earlier
add_timer_in_loop q t =
    let q' : TimerQueue = record q {
      pending_add_sequences = KeySet.erase t.sequence q.pending_add_sequences;
    } in
    if contains t.sequence q.pending_cancel
    then record q' { pending_cancel = KeySet.erase t.sequence q.pending_cancel }
    else record q' {
      timers = insert_entry (t.expiration, t.sequence) q.timers;
      timers_owned =
          if has t.sequence q.timers_owned
          then q.timers_owned
          else assign t.sequence t q.timers_owned;
      alarm = if earlier t.expiration q.timers then some t.expiration else q.alarm;
    }

-- `addTimer` on another thread, before the loop takes the timer.
pub submit_timer : TimerQueue → ℕ → TimerQueue
submit_timer q sequence = record q {
  pending_add_sequences = insert sequence q.pending_add_sequences;
}

-- A timer that is not among those that have just expired.
pub remove_timer : TimerQueue → ℕ → Timer → TimerQueue
unfolding erase_entry first_expiration is_first
remove_timer q sequence t =
    let timers = erase_entry (t.expiration, t.sequence) q.timers in
    record q {
      timers = timers;
      timers_owned = Map.erase sequence q.timers_owned;
      alarm = if is_first t.sequence q.timers then first_expiration timers else q.alarm;
    }

pub cancel_in_loop : TimerQueue → ℕ → TimerQueue
unfolding remove_timer
cancel_in_loop q sequence = elim (find sequence q.timers_owned) [
  | none ↦
      if contains sequence q.pending_add_sequences
      then record q { pending_cancel = insert sequence q.pending_cancel }
      else q
  | some t ↦
      if q.calling_expired_timers && contains sequence q.active_expired_timers
      then record q {
        timers_owned = assign sequence (record t { canceled = true }) q.timers_owned;
        canceling_timers = insert sequence q.canceling_timers;
      }
      else remove_timer q sequence t
]

-- What a callback does to the queue it is called from.
pub data Action : Type 0 where
  add : Timer → Action
  cancel : ℕ → Action

pub perform : List Action → TimerQueue → TimerQueue
unfolding add_timer_in_loop cancel_in_loop
perform [] q = q
perform (add t ∷ as') q = perform as' (add_timer_in_loop q t)
perform (cancel s ∷ as') q = perform as' (cancel_in_loop q s)

pub get_expired : ℕ → List Entry → List Entry
get_expired now [] = []
get_expired now ((e, s) ∷ es) =
    let rest = get_expired now es in if leb e now then (e, s) ∷ rest else []

pub less_expired : ℕ → List Entry → List Entry
less_expired now [] = []
less_expired now ((e, s) ∷ es) =
    let rest = less_expired now es in if leb e now then rest else (e, s) ∷ es

pub mark_active : List Entry → KeySet ℕ → KeySet ℕ
mark_active [] active = active
mark_active ((e, s) ∷ es) active = mark_active es (insert s active)

-- The callbacks, with the sequences of those that are called.
pub run_expired : (ℕ → List Action) → List Entry → TimerQueue → List ℕ × TimerQueue
unfolding perform
run_expired actions [] q = ([], q)
run_expired actions ((e, s) ∷ es) q =
    let passed = run_expired actions es q in
    let called = run_expired actions es (perform (actions s) q) in
    elim (find s q.timers_owned) [
      | none ↦ passed
      | some t ↦ if t.canceled then passed else (s ∷ called.0, called.1)
    ]

-- One timer after the callbacks.
pub settle_one : ℕ → ℕ → TimerQueue → TimerQueue
unfolding restart insert_entry
settle_one now s q =
    if contains s q.canceling_timers
    then record q { timers_owned = Map.erase s q.timers_owned }
    else elim (find s q.timers_owned) [
      | none ↦ q
      | some t ↦
          let t' = restart t now in
          if t.canceled
          then record q { timers_owned = Map.erase s q.timers_owned }
          else if t.repeat
          then record q {
            timers_owned = assign s t' q.timers_owned;
            timers = insert_entry (t'.expiration, t'.sequence) q.timers;
          }
          else record q { timers_owned = Map.erase s q.timers_owned }
    ]

pub settle : ℕ → List Entry → TimerQueue → TimerQueue
unfolding settle_one
settle now [] q = q
settle now ((e, s) ∷ es) q = settle now es (settle_one now s q)

-- `ready` says that eight bytes were read from timerfd.
pub handle_read : TimerQueue → Bool → ℕ → (ℕ → List Action) → List ℕ × TimerQueue
unfolding get_expired less_expired mark_active run_expired settle first_expiration
handle_read q ready now actions =
    let expire = get_expired now q.timers in
    let (called, q') = run_expired actions expire (record q {
      timers = less_expired now q.timers;
      active_expired_timers = mark_active expire q.active_expired_timers;
      calling_expired_timers = true;
      canceling_timers = [];
    }) in
    let settled = settle now expire (record q' { calling_expired_timers = false }) in
    if not ready then ([], q) else (
      called,
      record settled {
        alarm = first_expiration settled.timers;
        active_expired_timers = [];
        canceling_timers = [];
      },
    )

-- What happens to a queue, one after the other on the thread of its loop.
pub data Step : Type 0 where
  submitted : ℕ → Step
  added : Timer → Step
  canceled_timer : ℕ → Step
  fired : Bool → ℕ → (ℕ → List Action) → Step

pub step : TimerQueue → Step → List ℕ × TimerQueue
unfolding submit_timer add_timer_in_loop cancel_in_loop handle_read
step q (submitted s) = ([], submit_timer q s)
step q (added t) = ([], add_timer_in_loop q t)
step q (canceled_timer s) = ([], cancel_in_loop q s)
step q (fired ready now actions) = handle_read q ready now actions
