-- ===== src/Net/TcpServer/Batch.antt =====
-- src/TcpServer.cpp, `sendBatchToConnKeys` and `enqueueFrameBatch`: one frame for many connections.
-- The base loop reserves room in each connection and then queues one task for each I/O loop, which
-- delivers the frame to its connections. `loop_of` is `getLoop` of the connection under a file
-- descriptor. The batches are kept in the order of their first connections, where the source has the
-- order of a hash table; each loop has one of them, so no loop sees that order.
pub mod Queues
pub mod Rounds
pub mod Counted
pub mod Fanout
use project_chat.Common.{ℕ, ◌%◌, ◌^◌, List, [], ◌∷◌, ◌++◌, map, Option, none, some, length, nat_key}
use project_chat.Common.Map.{Map, find, assign}
use project_chat.Net.Connection.{
  Connection, Frame, frame_bytes, create, SendResult, ok, no_such_connection, try_reserve_frame,
  release_reserved_frame,
}
use project_chat.Net.Batch.{BatchSendResult, no_results, add}

-- `static_cast<int>(key)`, as the 32 bits of it: a file descriptor is the same number in both, and what
-- is negative is above all of them.
abbrev pub descriptor : ℕ → ℕ
descriptor key = key % 2 ^ 32

-- A task of an I/O loop: the descriptors of the connections that it delivers the frame to, in order.
abbrev pub Task : Type 0
Task = List ℕ × Frame

-- The connections, and the tasks that wait in each loop, the oldest first.
pub record Loops : Type 0 where
  pub connections : Map ℕ Connection
  pub tasks : Map ℕ (List Task)

-- `map[key]`, with an empty list when the key is new.
abbrev pub list_or_none {ℓ} : {A : Type ℓ} → Option (List A) → List A
list_or_none none = []
list_or_none (some l) = l

abbrev pub list_at {ℓ} : {A : Type ℓ} → ℕ → Map ℕ (List A) → List A
list_at k m = list_or_none (find k m)

abbrev pub push_at {ℓ} : {A : Type ℓ} → ℕ → A → Map ℕ (List A) → Map ℕ (List A)
push_at k a m = assign k (list_at k m ++ (a ∷ [])) m

-- The loop over the keys, as descriptors, with the connections, the batches and the result so far.
pub record Reserving : Type 0 where
  pub connections : Map ℕ Connection
  pub batches : Map ℕ (List ℕ)
  pub result : BatchSendResult

module _ (loop_of : ℕ → ℕ) where
  abbrev pub reserved : Reserving → ℕ → SendResult × Connection → Reserving
  reserved r key (ok, c) = record {
    connections = assign key c r.connections;
    batches = push_at (loop_of key) key r.batches;
    result = add r.result ok;
  }
  reserved r key (refusal, c) = record r {
    connections = assign key c r.connections;
    result = add r.result refusal;
  }

  pub reserve_one : ℕ → Reserving → ℕ → Reserving
  reserve_one bytes r key = elim (find key r.connections) [
    | none ↦ record r { result = add r.result no_such_connection }
    | some c ↦ reserved r key (try_reserve_frame c bytes)
  ]

  pub reserve_all : ℕ → Reserving → List ℕ → Reserving
  unfolding reserve_one
  reserve_all bytes r [] = r
  reserve_all bytes r (key ∷ keys) = reserve_all bytes (reserve_one bytes r key) keys

-- A reservation for each of the keys given back.
pub release_all : ℕ → Map ℕ Connection → List ℕ → Map ℕ Connection
release_all bytes connections [] = connections
release_all bytes connections (key ∷ keys) =
    release_all bytes
      (elim (find key connections) [
        | none ↦ connections
        | some c ↦ assign key (release_reserved_frame c bytes) connections
      ])
      keys

-- `none` is a null loop or frame.
pub enqueue_frame_batch : Loops → Option ℕ → List ℕ → Option Frame → Loops
unfolding release_all
enqueue_frame_batch s loop keys none = s
enqueue_frame_batch s none keys (some f) = record s {
  connections = release_all (frame_bytes f) s.connections keys;
}
enqueue_frame_batch s (some loop) [] (some f) = s
enqueue_frame_batch s (some loop) (key ∷ keys) (some f) = record s {
  tasks = push_at loop (key ∷ keys, f) s.tasks;
}

pub enqueue_all : Loops → Frame → Map ℕ (List ℕ) → Loops
unfolding enqueue_frame_batch
enqueue_all s f [] = s
enqueue_all s f ((loop, keys) ∷ batches) =
    enqueue_all (enqueue_frame_batch s (some loop) keys (some f)) f batches

abbrev all_failed : List ℕ → BatchSendResult
all_failed keys = record no_results { failures = length keys }

-- `maxFrameLen` is that of the server's configuration; `none` is a null payload.
pub send_batch : (ℕ → ℕ) → ℕ → Loops → List ℕ → Option (List ℕ) → BatchSendResult × Loops
unfolding reserve_all enqueue_all
send_batch loop_of max_frame_len s keys none = (all_failed keys, s)
send_batch loop_of max_frame_len s keys (some payload) = elim (create payload max_frame_len) [
  | none ↦ (all_failed keys, s)
  | some f ↦
      let done =
        reserve_all loop_of (frame_bytes f)
          (record { connections = s.connections; batches = []; result = no_results })
          (map descriptor keys) in
      (done.result, enqueue_all (record s { connections = done.connections }) f done.batches)
]
