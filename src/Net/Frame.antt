-- ===== src/Net/Frame.antt =====
-- The reading side of src/TcpConnection.cpp: `handleRead` with its loop over length-prefixed
-- frames, and `handleControlFrame`. The results of `readv` come as a list of events; the clock
-- and the log are left out.
pub mod Decoding
pub mod Stream
use project_chat.Common.{
  ℕ, zero, suc, ◌+◌, ◌%◌, ◌^◌, ◌≡◌, List, [], ◌∷◌, ◌++◌, none, some, Bool, true, false, ◌&&◌, ltb,
  eqb, if◌then◌else◌,
}
use project_chat.Net.Buffer.{
  Buffer, readable_bytes, peek_uint32, retrieve_uint32, retrieve_as_string, read_fd,
}

-- Equality with a control text, byte by byte.
abbrev pub same_bytes : List ℕ → List ℕ → Bool
same_bytes [] [] = true
same_bytes (x ∷ xs) (y ∷ ys) = eqb x y && same_bytes xs ys
same_bytes _ _ = false

abbrev pub pong_bytes : List ℕ
pong_bytes = b'P' ∷ b'O' ∷ b'N' ∷ b'G' ∷ []

abbrev pub ping_bytes : List ℕ
ping_bytes = b'P' ∷ b'I' ∷ b'N' ∷ b'G' ∷ []

-- What one frame causes: the message callback, or one of the two control frames. A PONG renews
-- the heartbeat, a PING is answered by `send("PONG")`.
pub data Event : Type 0 where
  message : List ℕ → Event
  pong ping : Event

pub handle_control_frame : List ℕ → Event
handle_control_frame payload =
    if same_bytes payload pong_bytes
    then pong
    else if same_bytes payload ping_bytes
    then ping
    else message payload

-- One round of the inner loop: stop for more bytes, close the connection, or a frame's event and
-- the state after it.
pub data Round (S : Type 0) : Type 0 where
  wait close : Round S
  frame : Event → S → Round S

pub data Status : Type 0 where
  waiting closed exhausted : Status

pub record Parsed (S : Type 0) : Type 0 where
  pub events : List Event
  pub rest : S
  pub status : Status

abbrev pub after_event : {S : Type 0} → Event → Parsed S → Parsed S
after_event e p = record p { events = e ∷ p.events }

-- `while(true)` over a round, on fuel.
pub rounds : {S : Type 0} → (S → Round S) → ℕ → S → Parsed S
rounds round zero s = record { events = []; rest = s; status = exhausted }
rounds round (suc fuel) s = elim (round s) [
  | wait ↦ record { events = []; rest = s; status = waiting }
  | close ↦ record { events = []; rest = s; status = closed }
  | frame e s' ↦ after_event e (rounds round fuel s')
]

-- The body behind the length. `4 + len` is 32-bit arithmetic. An empty frame is a message at once.
frame_round : ℕ → Buffer → ℕ → Round Buffer
frame_round max_frame_len b len =
    if eqb len 0
    then frame (message []) (retrieve_uint32 b)
    else if ltb max_frame_len len
    then close
    else if ltb (readable_bytes b) ((4 + len) % 2 ^ 32)
    then wait
    else (let (payload, rest) = retrieve_as_string (retrieve_uint32 b) len in
        frame (handle_control_frame payload) rest)

pub buffer_round : ℕ → Buffer → Round Buffer
unfolding frame_round
buffer_round max_frame_len b =
    if ltb (readable_bytes b) 4
    then wait
    else elim (peek_uint32 b) [ none ↦ wait | some len ↦ frame_round max_frame_len b len ]

-- The inner loop; each round takes four bytes at least, so the bytes are fuel enough.
pub parse_frames : ℕ → Buffer → Parsed Buffer
parse_frames max_frame_len b = rounds (buffer_round max_frame_len) (suc (readable_bytes b)) b

-- What `readv` may answer: bytes (none at the end of the stream), EAGAIN, EINTR, another error.
pub data ReadResult : Type 0 where
  received : List ℕ → ReadResult
  would_block interrupted failed : ReadResult

abbrev pub after_parse : Parsed Buffer → Parsed Buffer → Parsed Buffer
after_parse p q = elim p.status [ waiting ↦ record q { events = p.events ++ q.events } | _ ↦ p ]

-- `handleRead`: the outer loop over the results of `readv`. `closed` stands for `handleClose`.
pub handle_read : ℕ → List ReadResult → Buffer → Parsed Buffer
handle_read m [] b = record { events = []; rest = b; status = waiting }
handle_read m (received [] ∷ rs) b = record { events = []; rest = b; status = closed }
handle_read m (received (x ∷ xs) ∷ rs) b =
    let p = parse_frames m (read_fd b (x ∷ xs)) in after_parse p (handle_read m rs p.rest)
handle_read m (would_block ∷ rs) b = record { events = []; rest = b; status = waiting }
handle_read m (interrupted ∷ rs) b = handle_read m rs b
handle_read m (failed ∷ rs) b = record { events = []; rest = b; status = closed }
