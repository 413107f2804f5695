-- ===== src/Net/Connection/Backlog.antt =====
-- Runs of one connection: direct sends, broadcasts that reserve and are delivered later by the
-- loop in the order of their reservation, writes to the socket, and the close. A reservation is one
-- step here.
use project_chat.Common.{
  ℕ, ◌≡◌, refl, List, [], ◌∷◌, ◌++◌, Bool, true, false, Option, none, some, if-cases, not, ltb,
}
use project_chat.Net.Buffer.{new}
use project_chat.Net.Connection.{
  Config, Connection, Frame, add_size, record_overload_drop, claim_frame, frame_bytes, create,
  handle_close, send_in_loop, SendResult, ok, try_reserve_frame, send_reserved_frame_in_loop, Sent,
  handle_write,
}

pub record World : Type 0 where
  pub connection : Connection
  -- Frames whose delivery is queued in the connection's loop, oldest first.
  pub in_flight : List Frame

pub data Op : Type 0 where
  send : List ℕ → Bool → Op
  broadcast : List ℕ → Op
  deliver : Bool → Op
  write : List Sent → Bool → Op
  close : Op

-- `TcpServer` queues the delivery of a frame only after a reservation that was granted.
unfoldable pub after_reserve : World → Frame → SendResult × Connection → World
after_reserve w f (ok, c) = record { connection = c; in_flight = w.in_flight ++ f ∷ [] }
after_reserve w f (_, c) = record w { connection = c }

unfoldable pub broadcast_frame : World → Option Frame → World
unfolding after_reserve
broadcast_frame w none = w
broadcast_frame w (some f) = after_reserve w f (try_reserve_frame w.connection (frame_bytes f))

unfoldable pub deliver_next : World → List Frame → Bool → World
deliver_next w [] enabled = w
deliver_next w (f ∷ fs) enabled = record {
  connection = send_reserved_frame_in_loop w.connection (some f) enabled;
  in_flight = fs;
}

unfoldable pub step : World → Op → World
unfolding broadcast_frame deliver_next
step w (send msg enabled) = record w { connection = send_in_loop w.connection msg enabled }
step w (broadcast payload) = broadcast_frame w (create payload w.connection.max_frame_len)
step w (deliver enabled) = deliver_next w w.in_flight enabled
step w (write results disabled) = record w {
  connection = handle_write w.connection results disabled;
}
step w close = record w { connection = handle_close w.connection }

unfoldable pub run : World → List Op → World
run w [] = w
run w (op ∷ ops) = run (step w op) ops

pub step-broadcast :
    (w : World) (payload : List ℕ) (f : Frame)
    → create payload w.connection.max_frame_len ≡ some f
    → step w (broadcast payload)
      ≡ after_reserve w f (try_reserve_frame w.connection (frame_bytes f))
unfolding step broadcast_frame
step-broadcast w payload f e = rw (e) refl

pub step-broadcast_refused :
    (w : World) (payload : List ℕ)
    → create payload w.connection.max_frame_len ≡ none
    → step w (broadcast payload) ≡ w
unfolding step broadcast_frame
step-broadcast_refused w payload e = rw (e) refl

pub config-try_reserve_frame :
    (c : Connection) (bytes : ℕ) → (try_reserve_frame c bytes).1.config ≡ c.config
unfolding try_reserve_frame claim_frame record_overload_drop
config-try_reserve_frame c bytes =
    let Same = λ (x : SendResult × Connection). x.1.config ≡ c.config in
    if-cases Same (not c.connected) (λ _. refl)
      (λ _.
        if-cases Same
          (ltb c.hard_limit
            (add_size (add_size c.pending_bytes_estimate c.queued_frame_bytes) bytes))
          (λ _. refl) (λ _. refl))

-- A connection as its constructor and `connectionEstablished` leave it.
unfoldable pub established : Config → World
established config = record {
  connection = record {
    config = config;
    output = new;
    connected = true;
    has_channel = true;
    overloaded = false;
    dropped_message = 0;
    overload_drop_count = 0;
    pending_bytes_estimate = 0;
    queued_frame_bytes = 0;
    close_scheduled = false;
  };
  in_flight = [];
}
