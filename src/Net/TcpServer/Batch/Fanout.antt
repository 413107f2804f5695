-- ===== src/Net/TcpServer/Batch/Fanout.antt =====
-- A batch, as one of the connections sees it.
use mathlib.Core.List.{append-nil}
use project_chat.Common.{
  ℕ, ◌<◌, ◌^◌, ◌≡◌, refl, sym, ◌∙◌, ap, List, [], ◌∷◌, none, some, eqb, length, map, arith,
  Option-both, nat_key, length-map, if-cases,
}
use project_chat.Common.Map.{find}
use project_chat.Net.Connection.{Connection, Frame, frame_bytes, create}
use project_chat.Net.Connection.Backlog.{World, Op, run, step-broadcast_refused}
use project_chat.Net.Batch.{BatchSendResult, no_results, total}
use project_chat.Net.Batch.Totals.{size, total_lem, size_none, total_failed}
use project_chat.Net.TcpServer.Batch.{Loops, descriptor, Reserving, reserve_all, send_batch}
use project_chat.Net.TcpServer.Batch.Queues.{waiting, waiting-enqueue_all, connections-enqueue_all}
use project_chat.Net.TcpServer.Batch.Rounds.{broadcasts_to, reserve_all-Follows}
use project_chat.Net.TcpServer.Batch.Counted.{reserve_all-Unique, reserve_all-size}

-- The connection under a key, with the frames that wait for it in its loop.
abbrev pub world : (ℕ → ℕ) → Loops → ℕ → Connection → World
world loop_of s fd c = record { connection = c; in_flight = waiting fd (loop_of fd) s }

-- A batch counts all its keys, and is for one connection the broadcasts to it.
pub record Delivers (loop_of : ℕ → ℕ) (s : Loops) (keys : List ℕ) (payload : List ℕ) (fd : ℕ)
    (c : Connection) (out : BatchSendResult × Loops) : Type 0 where
  pub counted : total out.0 ≡ length keys
  pub connection : Connection
  pub found : find fd out.1.connections ≡ some connection
  pub follows :
      world loop_of out.1 fd connection
      ≡ run (world loop_of s fd c) (broadcasts_to fd (map descriptor keys) payload)

run-refused :
    (w : World) (fd : ℕ) (keys payload : List ℕ)
    → create payload w.connection.max_frame_len ≡ none
    → run w (broadcasts_to fd keys payload) ≡ w
unfolding run
run-refused w fd [] payload h = refl
run-refused w fd (key ∷ keys) payload h =
    if-cases (λ (ops : List Op). run w ops ≡ w) (eqb key fd)
      (λ _.
        ap (λ v. run v (broadcasts_to fd keys payload)) (step-broadcast_refused w payload h)
        ∙ run-refused w fd keys payload h)
      (λ _. run-refused w fd keys payload h)

-- A frame sent to fewer than 2 ^ 64 keys is counted once for each key. Each connection of the
-- server, with the frames that wait for it in its loop, comes to where it is after as many broadcasts
-- as its key is among those keys, one after the other: a reservation that is granted is queued once
-- for delivery, one that is refused is not, and no other connection's is touched. The connection
-- takes frames up to the limit of the server's configuration.
pub send_batch-Delivers :
    (loop_of : ℕ → ℕ) (s : Loops) (keys payload : List ℕ) (fd : ℕ) (c : Connection)
    → length keys < 2 ^ 64
    → find fd s.connections ≡ some c
    → Delivers loop_of s keys payload fd c
        (send_batch loop_of c.max_frame_len s keys (some payload))
unfolding send_batch run find
send_batch-Delivers loop_of s keys payload fd c few e =
    Option-both (Delivers loop_of s keys payload fd c) (create payload c.max_frame_len)
      (λ refused. record {
        counted = total_failed (length keys) few;
        connection = c;
        found = e;
        follows = sym (run-refused (world loop_of s fd c) fd (map descriptor keys) payload refused);
      })
      (λ f fits.
        let fds : List ℕ = map descriptor keys in
        let start : Reserving = record {
          connections = s.connections;
          batches = [];
          result = no_results;
        } in
        let done : Reserving = reserve_all loop_of (frame_bytes f) start fds in
        let reserving : Loops = record s { connections = done.connections } in
        let base : List Frame = waiting fd (loop_of fd) s in
        let mine = reserve_all-Follows loop_of fd f base payload start fds c e fits in
        let all : size done.result ≡ length keys =
          reserve_all-size loop_of (frame_bytes f) start fds
            (omega (arith, few, size_none, length-map descriptor keys))
          ∙ omega (arith, size_none, length-map descriptor keys) in
        record {
          counted = total_lem done.result (omega (arith, all, few)) ∙ all;
          connection = mine.connection;
          found = ap (find fd) (connections-enqueue_all reserving f done.batches) ∙ mine.found;
          follows =
              ap (λ (l : List Frame). record { connection = mine.connection; in_flight = l })
                (waiting-enqueue_all fd (loop_of fd) reserving f done.batches
                  (reserve_all-Unique loop_of (frame_bytes f) start fds tt))
              ∙ mine.follows
              ∙ ap
                  (λ (l : List Frame).
                    run (record { connection = c; in_flight = l }) (broadcasts_to fd fds payload))
                  (append-nil base);
        })
