-- ===== src/Storage/SqlConnectionPool/Exclusive.antt =====
-- No connection is lent twice.
use project_chat.Common.{ℕ, ◌+◌, ◌≤◌, ◌≡◌, Bool, List}
use project_chat.Common.Counts.{count}
use project_chat.Storage.SqlConnectionPool.{SqlConnectionPool, Lending}

-- A connection is idle or with a guard once at most; one that is still to come is neither.
pub record IsExclusive (l : Lending) : Type 0 where
  pub once : (x : ℕ) → count x l.pool.idle + count x l.held ≤ 1
  pub fresh : (x : ℕ) → l.pool.next_connection ≤ x → count x l.pool.idle + count x l.held ≡ 0

module _ (connects : ℕ → Bool) (held : List ℕ) where
  abbrev With : SqlConnectionPool → Type 0
  With p = IsExclusive (record { pool = p; held = held })
