-- ===== src/Infra/KeyedSerialExecutor/Shards.antt =====
-- The numbers of all shards add up.
use project_chat.Common.{
  ℕ, ◌+◌, ◌%◌, ◌^◌, ◌≡◌, ◌<◌, ◌↔◌, ◌&&◌, Bool, true, false, List, [], ◌∷◌, map, arith,
}
use project_chat.Infra.ThreadPool.{running, stopped, is_running}
use project_chat.Infra.KeyedSerialExecutor.{
  KeyedSerialExecutor, ThreadPoolStats, stats, Aggregate, add_stats, add_all, no_stats, is_stopped,
  aggregate_stats,
}

pub all_true : {A : Type 0} → (A → Bool) → List A → Bool
all_true test [] = true
all_true test (x ∷ xs) = test x && all_true test xs

pub sum : {A : Type 0} → (A → ℕ) → List A → ℕ
sum number [] = 0
sum number (x ∷ xs) = number x + sum number xs

states_add_all :
    (a : Aggregate) (ss : List ThreadPoolStats)
    → ((add_all a ss).all_running ≡ (a.all_running && all_true (λ s. is_running s.state) ss))
      × ((add_all a ss).all_stopped ≡ (a.all_stopped && all_true (λ s. is_stopped s.state) ss))
unfolding add_all all_true add_stats
states_add_all a [] = ground arith
states_add_all a (s ∷ ss) = ground (arith, states_add_all (add_stats a s) ss)

counts_add_all :
    (a : Aggregate) (ss : List ThreadPoolStats)
    → a.total.submitted_tasks < 2 ^ 64
    → a.total.completed_tasks < 2 ^ 64
    → a.total.failed_tasks < 2 ^ 64
    → ((add_all a ss).total.submitted_tasks
        ≡ (a.total.submitted_tasks + sum (λ s. s.submitted_tasks) ss) % 2 ^ 64)
      × ((add_all a ss).total.completed_tasks
          ≡ (a.total.completed_tasks + sum (λ s. s.completed_tasks) ss) % 2 ^ 64)
      × ((add_all a ss).total.failed_tasks
          ≡ (a.total.failed_tasks + sum (λ s. s.failed_tasks) ss) % 2 ^ 64)
unfolding add_all sum add_stats
counts_add_all a [] h k l = omega arith
counts_add_all a (s ∷ ss) h k l =
    let (submitted, completed, failed) =
      counts_add_all (add_stats a s) ss (omega arith) (omega arith) (omega arith) in
    omega (arith, submitted, completed, failed)

-- In the statistics of an executor the submitted, completed and failed tasks of its shards add
-- up, in 64 bits, and its state is running exactly when all shards run, and stopped exactly when
-- not all run and all have stopped.
aggregate_stats_lem :
    {T : Type 0} (e : KeyedSerialExecutor T)
    → let shards = map stats e.shards in
      ((aggregate_stats e).submitted_tasks ≡ sum (λ s. s.submitted_tasks) shards % 2 ^ 64)
      × ((aggregate_stats e).completed_tasks ≡ sum (λ s. s.completed_tasks) shards % 2 ^ 64)
      × ((aggregate_stats e).failed_tasks ≡ sum (λ s. s.failed_tasks) shards % 2 ^ 64)
      × (((aggregate_stats e).state ≡ running) ↔ (all_true (λ s. is_running s.state) shards ≡ true))
      × (((aggregate_stats e).state ≡ stopped) ↔ (
          (all_true (λ s. is_running s.state) shards ≡ false)
          × (all_true (λ s. is_stopped s.state) shards ≡ true)))
unfolding aggregate_stats
aggregate_stats_lem e =
    let start : Aggregate = record { total = no_stats; all_running = true; all_stopped = true } in
    let (submitted, completed, failed) =
      counts_add_all start (map stats e.shards) (omega arith) (omega arith) (omega arith) in
    let (up, down) = states_add_all start (map stats e.shards) in
    (
      omega (arith, submitted),
      omega (arith, completed),
      omega (arith, failed),
      ground (arith, up, down),
      ground (arith, up, down),
    )
