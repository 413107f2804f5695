-- ===== src/Net/TcpServer/Batch/Counted.antt =====
-- The loop over the keys: its batches have each loop once, and each key is counted once.
use project_chat.Common.{
  ℕ, ◌+◌, ◌<◌, ◌^◌, ◌≡◌, refl, ◌∙◌, ap, List, [], ◌∷◌, ◌++◌, length, arith, Option-both, nat_key,
}
use project_chat.Common.Map.{find}
use project_chat.Net.Connection.{
  Connection, SendResult, ok, no_such_connection, closed, overloaded, failed, try_reserve_frame,
}
use project_chat.Net.Batch.{add}
use project_chat.Net.Batch.Totals.{size, size-add}
use project_chat.Net.TcpServer.Batch.{Reserving, list_at, reserved, reserve_one, reserve_all}
use project_chat.Net.TcpServer.Batch.Queues.{Unique, Unique-assign}

reserved-Unique :
    (loop_of : ℕ → ℕ) (r : Reserving) (key : ℕ) (x : SendResult × Connection)
    → Unique r.batches
    → Unique (reserved loop_of r key x).batches
reserved-Unique loop_of r key (ok, c) u =
    Unique-assign (loop_of key) (list_at (loop_of key) r.batches ++ (key ∷ [])) r.batches u
reserved-Unique loop_of r key (no_such_connection, c) u = u
reserved-Unique loop_of r key (closed, c) u = u
reserved-Unique loop_of r key (overloaded, c) u = u
reserved-Unique loop_of r key (failed, c) u = u

reserved-result :
    (loop_of : ℕ → ℕ) (r : Reserving) (key : ℕ) (x : SendResult × Connection)
    → (reserved loop_of r key x).result ≡ add r.result x.0
reserved-result loop_of r key (ok, c) = refl
reserved-result loop_of r key (no_such_connection, c) = refl
reserved-result loop_of r key (closed, c) = refl
reserved-result loop_of r key (overloaded, c) = refl
reserved-result loop_of r key (failed, c) = refl

module _ (loop_of : ℕ → ℕ) (bytes : ℕ) where
  pub reserve_all-Unique :
      (r : Reserving) (keys : List ℕ)
      → Unique r.batches
      → Unique (reserve_all loop_of bytes r keys).batches
  unfolding reserve_all reserve_one
  reserve_all-Unique r [] u = u
  reserve_all-Unique r (key ∷ keys) u = reserve_all-Unique (reserve_one loop_of bytes r key) keys (
      Option-both (λ (x : Reserving). Unique x.batches) (find key r.connections) (λ _. u)
        (λ c _. reserved-Unique loop_of r key (try_reserve_frame c bytes) u))

  reserve_one-size :
      (r : Reserving) (key : ℕ)
      → size r.result + 1 < 2 ^ 64
      → size (reserve_one loop_of bytes r key).result ≡ size r.result + 1
  unfolding reserve_one
  reserve_one-size r key h =
      Option-both (λ (x : Reserving). size x.result ≡ size r.result + 1) (find key r.connections)
        (λ _. size-add r.result no_such_connection h)
        (λ c _.
          let x : SendResult × Connection = try_reserve_frame c bytes in
          ap size (reserved-result loop_of r key x) ∙ size-add r.result x.0 h)

  pub reserve_all-size :
      (r : Reserving) (keys : List ℕ)
      → size r.result + length keys < 2 ^ 64
      → size (reserve_all loop_of bytes r keys).result ≡ size r.result + length keys
  unfolding reserve_all
  reserve_all-size r [] h = omega arith
  reserve_all-size r (key ∷ keys) h =
      let one = reserve_one-size r key (omega arith) in
      let rest = reserve_all-size (reserve_one loop_of bytes r key) keys (omega (arith, one)) in
      omega (arith, one, rest)
