-- ===== src/Net/Connection.antt =====
-- The sending side of src/TcpConnection.cpp with src/net/OutboundFrame.cpp: limits on the bytes
-- that wait for a slow peer. What epoll answers to `enableWriting` and `disableWriting`, and what
-- `send` answers, are arguments. Callbacks and the log are left out. Each function is one step of the
-- loop of the connection. `tryReserveFrame` runs on the base loop beside it: Net/Connection/Racing
-- has it in two steps, with any steps of the loop of the connection between them.
pub mod Limits
pub mod Racing
pub mod Backlog
use project_chat.Common.{
  ℕ, zero, suc, ◌+◌, ◌-◌, ◌%◌, ◌^◌, List, [], ◌∷◌, Bool, true, false, not, ◌&&◌, ◌||◌, Option, none,
  some, length, take, leb, ltb, eqb, if◌then◌else◌,
}
use project_chat.Net.Buffer.{Buffer, readable_bytes, append, append_uint32, uint32_bytes, retrieve}

-- `size_t` and `uint32_t` sums.
abbrev pub add_size : ℕ → ℕ → ℕ
add_size a b = (a + b) % 2 ^ 64

abbrev pub add_u32 : ℕ → ℕ → ℕ
add_u32 a b = (a + b) % 2 ^ 32

-- What the constructor takes from the configuration.
pub record Config : Type 0 where
  pub max_frame_len : ℕ
  pub high_water_mark : ℕ
  pub low_water_mark : ℕ
  pub hard_limit : ℕ
  pub max_overload_drop_count : ℕ

pub record Connection : Type 0 where
  pub config : Config
  pub open config use *
  pub output : Buffer
  pub connected : Bool
  pub has_channel : Bool
  pub overloaded : Bool
  pub dropped_message : ℕ
  pub overload_drop_count : ℕ
  pub pending_bytes_estimate : ℕ
  pub queued_frame_bytes : ℕ
  -- A `handleClose` that `scheduleCloseInLoop` has queued for the connection's loop.
  pub close_scheduled : Bool

-- `OutboundFrame::create`: a frame carries its header and shares the payload.
pub record Frame : Type 0 where
  pub header : List ℕ
  pub payload : List ℕ

abbrev pub frame_bytes : Frame → ℕ
frame_bytes f = length f.payload + length f.header

pub create : List ℕ → ℕ → Option Frame
create payload max_frame_len =
    if ltb max_frame_len (length payload) || ltb 4294967295 (length payload)
    then none
    else some (record { header = uint32_bytes (length payload % 2 ^ 32); payload = payload })

abbrev pub pending_bytes : Connection → ℕ
pending_bytes c = readable_bytes c.output

abbrev pub total_pending_estimate : Connection → ℕ
total_pending_estimate c = add_size c.queued_frame_bytes (readable_bytes c.output)

abbrev pub can_accept : Connection → ℕ → Bool
can_accept c next_bytes = leb (add_size (pending_bytes c) next_bytes) c.hard_limit

pub handle_close : Connection → Connection
handle_close c = record c { connected = false }

update_pending_estimate : Connection → Connection
update_pending_estimate c = record c { pending_bytes_estimate = readable_bytes c.output }

-- The end of both send paths: a failure to watch for writability closes the connection.
enable_writing : Bool → Connection → Connection
unfolding handle_close
enable_writing enabled c = if c.has_channel && not enabled then handle_close c else c

-- A refused direct send. In the connection's own loop the scheduled close runs at once.
drop_direct : Connection → Connection
unfolding handle_close
drop_direct c =
    let drops = add_u32 c.overload_drop_count 1 in
    let counted : Connection = record c {
      dropped_message = add_size c.dropped_message 1;
      overload_drop_count = drops;
    } in
    if leb c.max_overload_drop_count drops then handle_close counted else counted

-- Length and text behind what waits, and the high mark.
store_direct : Connection → ℕ → List ℕ → Connection
unfolding update_pending_estimate
store_direct c len msg =
    let stored =
      update_pending_estimate (record c { output = append (append_uint32 c.output len) msg }) in
    record stored {
      overloaded = stored.overloaded || leb c.high_water_mark stored.pending_bytes_estimate;
    }

pub send_in_loop : Connection → List ℕ → Bool → Connection
unfolding drop_direct store_direct enable_writing
send_in_loop c msg enabled =
    let len = length msg % 2 ^ 32 in
    if not c.connected || not c.has_channel
    then c
    else if ltb c.max_frame_len len
    then c
    else if not (can_accept c (add_u32 4 len))
    then drop_direct c
    else enable_writing enabled (store_direct c len (take len msg))

-- Runs on another thread than the loop, so the close is only scheduled.
pub record_overload_drop : Connection → Connection
record_overload_drop c =
    let drops = add_u32 c.overload_drop_count 1 in
    record c {
      dropped_message = add_size c.dropped_message 1;
      overload_drop_count = drops;
      overloaded = true;
      close_scheduled = c.close_scheduled || leb c.max_overload_drop_count drops;
    }

pub data SendResult : Type 0 where
  ok no_such_connection closed overloaded failed : SendResult

-- `tryReserveFrame` from its reading of `pendingBytesEstimate_` on. The compare-and-swap makes the
-- reading of `queuedFrameBytes_`, the test and the sum one step when it goes through; otherwise the
-- loop reads again.
pub claim_frame : Connection → ℕ → ℕ → SendResult × Connection
unfolding record_overload_drop
claim_frame c pending bytes =
    if ltb c.hard_limit (add_size (add_size pending c.queued_frame_bytes) bytes)
    then (overloaded, record_overload_drop c)
    else (ok, record c { queued_frame_bytes = add_size c.queued_frame_bytes bytes })

-- When the loop of the connection does not come between the two readings.
pub try_reserve_frame : Connection → ℕ → SendResult × Connection
unfolding claim_frame
try_reserve_frame c bytes =
    if not c.connected then (closed, c) else claim_frame c c.pending_bytes_estimate bytes

-- The stored value after an underflow is 0.
pub release_reserved_frame : Connection → ℕ → Connection
release_reserved_frame c bytes =
    let previous = c.queued_frame_bytes in
    if ltb previous bytes
    then record c { queued_frame_bytes = 0 }
    else record c { queued_frame_bytes = previous - bytes }

-- The frame behind what waits, its reservation given back, and the high mark.
store_reserved : Connection → Frame → Connection
unfolding update_pending_estimate release_reserved_frame
store_reserved c f =
    let stored =
      release_reserved_frame
        (update_pending_estimate
          (record c { output = append (append c.output f.header) f.payload }))
        (frame_bytes f) in
    record stored {
      overloaded = stored.overloaded || ltb c.high_water_mark (total_pending_estimate stored);
    }

pub send_reserved_frame_in_loop : Connection → Option Frame → Bool → Connection
unfolding store_reserved release_reserved_frame enable_writing
send_reserved_frame_in_loop c none enabled = c
send_reserved_frame_in_loop c (some f) enabled =
    if not c.connected
    then release_reserved_frame c (frame_bytes f)
    else enable_writing enabled (store_reserved c f)

-- What `send` answers: bytes taken, EINTR, EAGAIN, or an error.
pub data Sent : Type 0 where
  took : ℕ → Sent
  interrupted would_block error : Sent

-- After `n` bytes went out, and recovery below the low mark.
sent_bytes : Connection → ℕ → Connection
unfolding update_pending_estimate
sent_bytes c n =
    let left = update_pending_estimate (record c { output = retrieve c.output n }) in
    if left.overloaded && ltb (total_pending_estimate left) c.low_water_mark
    then record left { overloaded = false; overload_drop_count = 0 }
    else left

-- When all has gone, writing is no longer watched; a failure there closes the connection.
disable_if_empty : Bool → Connection → Connection
unfolding handle_close
disable_if_empty disabled c =
    if eqb (readable_bytes c.output) 0 && (c.has_channel && not disabled) then handle_close c else c

pub handle_write : Connection → List Sent → Bool → Connection
unfolding handle_close sent_bytes disable_if_empty
handle_write c [] disabled = c
handle_write c (s ∷ rest) disabled = if eqb (readable_bytes c.output) 0 then c else elim s [
  | took n ↦ elim n [
    | zero ↦ handle_write c rest disabled
    | suc k ↦ handle_write (disable_if_empty disabled (sent_bytes c (suc k))) rest disabled
  ]
  | interrupted ↦ handle_write c rest disabled
  | would_block ↦ c
  | error ↦ handle_close c
]
