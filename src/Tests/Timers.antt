-- ===== src/Tests/Timers.antt =====
-- The queue of timers at concrete inputs.
use project_chat.Common.{ℕ, ◌≡◌, refl, true, false, List, [], ◌∷◌}
use project_chat.Common.Counts.{mem}
use project_chat.Timer.TimerQueue.{
  Timer, Action, cancel, add_timer_in_loop, cancel_in_loop, new, Step, added, fired,
}
use project_chat.Timer.TimerQueue.Canceled.{called, called_after_cancel}
use project_chat.Timer.TimerQueue.Armed.{WakesFor, after, after-WakesFor}

abbrev beat : Timer
beat = record { sequence = 1; expiration = 50; interval = 30; repeat = true; canceled = false }

abbrev once : Timer
once = record { sequence = 2; expiration = 40; interval = 0; repeat = false; canceled = false }

-- The second timer's callback cancels the first one.
abbrev actions : ℕ → List Action
actions s = cancel 1 ∷ []

abbrev rounds : List Step
rounds = added once ∷ fired true 60 (λ s. []) ∷ fired true 90 (λ s. []) ∷ []

called_after_cancel_example :
    mem 1 (called (cancel_in_loop (add_timer_in_loop new beat) 1) rounds) ≡ false
called_after_cancel_example =
    called_after_cancel 1 (add_timer_in_loop new beat) rounds (refl, (λ r. tt, (λ r. tt, tt)))

abbrev history : List Step
history = added beat ∷ added once ∷ fired true 45 actions ∷ added once ∷ []

after-WakesFor_example : WakesFor (after new history).alarm (after new history).timers
after-WakesFor_example = after-WakesFor history
