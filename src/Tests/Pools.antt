-- ===== src/Tests/Pools.antt =====
-- The pool of connections at concrete inputs.
use project_chat.Common.{ℕ, ◌+◌, ◌≡◌, refl, Bool, true, false, List, [], ◌∷◌, arith, ltb, length}
use project_chat.Storage.SqlConnectionPool.{
  Event, start_pool, stop_pool, acquire, give_back, connect_all, start, new, run, stats,
}
use project_chat.Storage.SqlConnectionPool.Capacity.{run-in_use}

-- The first three connections succeed.
abbrev connects : ℕ → Bool
connects c = ltb c 3

abbrev restarted : List Event
restarted = start_pool ∷ acquire ∷ stop_pool ∷ start_pool ∷ give_back 0 true ∷ acquire ∷ []

abbrev lendings : List Event
lendings = acquire ∷ acquire ∷ give_back 0 false ∷ give_back 1 false ∷ acquire ∷ []

run-in_use_example :
    let l = run connects (record { pool = (start connects (new 2)).1; held = [] }) lendings in
    let s = stats l.pool in
    (s.total ≡ 2) × (s.in_use ≡ length l.held + s.replace_failures) × (s.idle + s.in_use ≡ 2)
unfolding start new connect_all
run-in_use_example = run-in_use connects 2 lendings (omega arith) refl tt
