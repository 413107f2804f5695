-- ===== src/Net/Batch/Totals.antt =====
-- The counts of a batch are those of its results.
use project_chat.Common.{
  ℕ, ◌+◌, ◌^◌, ◌<◌, ◌≡◌, ◌↔◌, List, [], ◌∷◌, Bool, true, false, arith, refl, length, if◌then◌else◌,
}
use project_chat.Net.Connection.{SendResult, ok, no_such_connection, closed, overloaded, failed}
use project_chat.Net.Batch.{
  BatchSendResult, no_results, add, add_all, dropped, total, single_result,
}

abbrev pub same_result : SendResult → SendResult → Bool
same_result ok ok = true
same_result no_such_connection no_such_connection = true
same_result closed closed = true
same_result overloaded overloaded = true
same_result failed failed = true
same_result _ _ = false

-- How often a result occurs.
count : SendResult → List SendResult → ℕ
count r [] = 0
count r (s ∷ rs) = if same_result r s then 1 + count r rs else count r rs

-- The counts of `b`, with no wrap up to `n` more results.
record Counts (b c : BatchSendResult) (rs : List SendResult) : Type 0 where
  oks : c.sent ≡ b.sent + count ok rs
  unknown : c.no_such_connections ≡ b.no_such_connections + count no_such_connection rs
  shut : c.closed_connections ≡ b.closed_connections + count closed rs
  over : c.overloaded_connections ≡ b.overloaded_connections + count overloaded rs
  lost : c.failures ≡ b.failures + count failed rs
  all :
      c.sent + c.no_such_connections + c.closed_connections + c.overloaded_connections + c.failures
      ≡ b.sent
        + b.no_such_connections
        + b.closed_connections
        + b.overloaded_connections
        + b.failures
        + length rs

pub size : BatchSendResult → ℕ
size b =
    b.sent + b.no_such_connections + b.closed_connections + b.overloaded_connections + b.failures

pub size-add :
    (b : BatchSendResult) (r : SendResult) → size b + 1 < 2 ^ 64 → size (add b r) ≡ size b + 1
unfolding size add
size-add b r h = ground (arith, h)

Counts-add :
    (b c : BatchSendResult) (r : SendResult) (rs : List SendResult)
    → size b + 1 < 2 ^ 64
    → Counts (add b r) c rs
    → Counts b c (r ∷ rs)
unfolding size add count
Counts-add b c ok rs h k = ground arith
Counts-add b c no_such_connection rs h k = ground arith
Counts-add b c closed rs h k = ground arith
Counts-add b c overloaded rs h k = ground arith
Counts-add b c failed rs h k = ground arith

counts :
    (b : BatchSendResult) (rs : List SendResult)
    → size b + length rs < 2 ^ 64
    → Counts b (add_all b rs) rs
unfolding add_all count
counts b [] h = omega arith
counts b (r ∷ rs) h =
    Counts-add b (add_all (add b r) rs) r rs (omega arith)
      (counts (add b r) rs (omega (arith, size-add b r (omega arith))))

pub total_lem : (b : BatchSendResult) → size b < 2 ^ 64 → total b ≡ size b
unfolding total dropped size
total_lem b h = omega arith

pub size_none : size no_results ≡ 0
unfolding size
size_none = refl

pub total_failed : (n : ℕ) → n < 2 ^ 64 → total (record no_results { failures = n }) ≡ n
unfolding total dropped
total_failed n h = omega arith

-- For fewer than 2 ^ 64 results, the total of a batch is the number of its results; its single
-- result is ok exactly when one of them is, and overloaded exactly when none is ok and one is
-- overloaded.
add_all_lem :
    (rs : List SendResult)
    → length rs < 2 ^ 64
    → (total (add_all no_results rs) ≡ length rs)
      × ((single_result (add_all no_results rs) ≡ ok) ↔ (0 < count ok rs))
      × ((single_result (add_all no_results rs) ≡ overloaded)
          ↔ ((count ok rs ≡ 0) × (0 < count overloaded rs)))
unfolding total dropped single_result size
add_all_lem rs h =
    let c = counts no_results rs (omega arith) in
    (
      omega (arith, c.all),
      ground (arith, c.oks, c.unknown, c.shut, c.over),
      ground (arith, c.oks, c.unknown, c.shut, c.over),
    )
