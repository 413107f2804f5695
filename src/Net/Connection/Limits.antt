-- ===== src/Net/Connection/Limits.antt =====
-- How many bytes may wait in one connection, in its buffer and in frames that are reserved and
-- not yet delivered.
use project_chat.Common.{
  ℕ, zero, suc, ◌+◌, ◌*◌, ◌%◌, ◌^◌, ◌≤◌, ◌<◌, ◌≡◌, refl, List, [], ◌∷◌, Bool, true, false, some,
  arith, length, take, length-take, ltb, if◌then◌else◌, ◌≢◌, Bool-cases, inl, inr, not, ◌||◌,
}
use project_chat.Net.Buffer.{Buffer, readable_bytes, append, append_uint32}
use project_chat.Net.Buffer.Contents.{IsValid, retrieve-IsValid, readable_bytes-retrieve}
use project_chat.Net.Buffer.Room.{append-IsValid, readable_bytes-append, append_uint32_lem}
use project_chat.Net.Connection.{
  Config, Connection, Frame, frame_bytes, add_size, add_u32, can_accept, handle_close, store_direct,
  store_reserved, enable_writing, drop_direct, send_in_loop, record_overload_drop, SendResult, ok,
  claim_frame, try_reserve_frame, release_reserved_frame, send_reserved_frame_in_loop, Sent, took,
  interrupted, would_block, error, sent_bytes, disable_if_empty, handle_write,
}

-- No 32-bit or 64-bit sum of the send paths wraps.
pub record IsSane (c : Config) : Type 0 where
  pub small_frames : c.max_frame_len + 4 < 2 ^ 32
  pub small_limit : c.hard_limit < 2 ^ 61

-- A connection whose undelivered reservations are `reserved` bytes, and where `limit` bounds the
-- bytes that wait, those included.
pub record IsSound (config : Config) (limit reserved : ℕ) (c : Connection) : Type 0 where
  pub fixed : c.config ≡ config
  pub valid : IsValid c.output
  pub estimated : c.pending_bytes_estimate ≡ readable_bytes c.output
  pub queued : c.queued_frame_bytes ≡ reserved
  pub reservable : reserved ≤ config.hard_limit
  pub bounded : readable_bytes c.output + reserved ≤ limit

-- A frame that is put behind the bytes that wait.
framed :
    (b : Buffer) (len : ℕ) (xs : List ℕ)
    → IsValid b
    → len ≡ length xs
    → IsValid (append (append_uint32 b len) xs)
      × (readable_bytes (append (append_uint32 b len) xs) ≡ readable_bytes b + 4 + len)
framed b len xs v e =
    let (v4, _, r4) = append_uint32_lem b len v in
    (
      append-IsValid (append_uint32 b len) xs v4,
      omega (arith, r4, readable_bytes-append (append_uint32 b len) xs v4),
    )

appended :
    (b : Buffer) (xs ys : List ℕ)
    → IsValid b
    → IsValid (append (append b xs) ys)
      × (readable_bytes (append (append b xs) ys) ≡ readable_bytes b + length xs + length ys)
appended b xs ys v =
    let w = append-IsValid b xs v in
    (
      append-IsValid (append b xs) ys w,
      omega (arith, readable_bytes-append b xs v, readable_bytes-append (append b xs) ys w),
    )

module _ {config : Config} {limit reserved : ℕ} (sane : IsSane config)
    (triple : limit ≤ 3 * config.hard_limit) where
  pub handle_close-IsSound :
      {c : Connection}
      → IsSound config limit reserved c
      → IsSound config limit reserved (handle_close c)
  unfolding handle_close
  handle_close-IsSound s = ground arith

  enable_writing-IsSound :
      {c : Connection} (enabled : Bool)
      → IsSound config limit reserved c
      → IsSound config limit reserved (enable_writing enabled c)
  unfolding enable_writing
  enable_writing-IsSound enabled s = ground arith

  drop_direct-IsSound :
      {c : Connection}
      → IsSound config limit reserved c
      → IsSound config limit reserved (drop_direct c)
  unfolding drop_direct
  drop_direct-IsSound s = ground arith

  store_direct-IsSound :
      {c : Connection} (len : ℕ) (msg : List ℕ)
      → config.hard_limit + reserved ≤ limit
      → IsSound config limit reserved c
      → len ≡ length msg
      → readable_bytes c.output + 4 + len ≤ config.hard_limit
      → IsSound config limit reserved (store_direct c len msg)
  unfolding store_direct
  store_direct-IsSound {c} len msg above s e h = ground (arith, framed c.output len msg s.valid e)

  -- A direct send keeps to the limit on what waits, and none of its sums wraps.
  pub send_in_loop-IsSound :
      {c : Connection} (msg : List ℕ) (enabled : Bool)
      → config.hard_limit + reserved ≤ limit
      → IsSound config limit reserved c
      → IsSound config limit reserved (send_in_loop c msg enabled)
  unfolding send_in_loop
  send_in_loop-IsSound {c} msg enabled above s =
      elim (Bool-cases (not c.connected || not c.has_channel)) [
        | inl off ↦ rw off s
        | inr on ↦ rw on (elim (Bool-cases (ltb c.max_frame_len (length msg % 2 ^ 32))) [
          | inl long ↦ rw long s
          | inr short ↦
              rw short (elim (Bool-cases (not (can_accept c (add_u32 4 (length msg % 2 ^ 32))))) [
                | inl full ↦ rw full (drop_direct-IsSound s)
                | inr room ↦ rw room (
                    enable_writing-IsSound enabled (
                      store_direct-IsSound (length msg % 2 ^ 32) (take (length msg % 2 ^ 32) msg)
                        above s (omega (arith, length-take (length msg % 2 ^ 32) msg))
                        (ground (arith, sane.small_frames, sane.small_limit))))
              ])
        ])
      ]

  sent_bytes-IsSound :
      {c : Connection} (n : ℕ)
      → IsSound config limit reserved c
      → IsSound config limit reserved (sent_bytes c n)
  unfolding sent_bytes
  sent_bytes-IsSound {c} n s =
      ground
        (arith, retrieve-IsValid c.output n s.valid, readable_bytes-retrieve c.output n s.valid)

  disable_if_empty-IsSound :
      {c : Connection} (disabled : Bool)
      → IsSound config limit reserved c
      → IsSound config limit reserved (disable_if_empty disabled c)
  unfolding disable_if_empty
  disable_if_empty-IsSound disabled s = ground arith

  either-IsSound :
      {c d : Connection} (test : Bool)
      → IsSound config limit reserved c
      → IsSound config limit reserved d
      → IsSound config limit reserved (if test then c else d)
  either-IsSound true s t = s
  either-IsSound false s t = t

  pub handle_write-IsSound :
      (results : List Sent) (disabled : Bool) (c : Connection)
      → IsSound config limit reserved c
      → IsSound config limit reserved (handle_write c results disabled)
  unfolding handle_write
  handle_write-IsSound [] disabled c s = s
  handle_write-IsSound (took zero ∷ rest) disabled c s =
      either-IsSound _ s (handle_write-IsSound rest disabled c s)
  handle_write-IsSound (took (suc n) ∷ rest) disabled c s = either-IsSound _ s (
      handle_write-IsSound rest disabled (disable_if_empty disabled (sent_bytes c (suc n)))
        (disable_if_empty-IsSound disabled (sent_bytes-IsSound (suc n) s)))
  handle_write-IsSound (interrupted ∷ rest) disabled c s =
      either-IsSound _ s (handle_write-IsSound rest disabled c s)
  handle_write-IsSound (would_block ∷ rest) disabled c s = either-IsSound _ s s
  handle_write-IsSound (error ∷ rest) disabled c s = either-IsSound _ s (handle_close-IsSound s)

-- A reservation that is granted keeps to the limit, counting what waits and what is reserved.
-- One that is refused reserves nothing.
pub data Reserves (config : Config) (limit reserved bytes : ℕ) (before : Connection)
    (r : SendResult × Connection) : Type 0 where
  granted :
      r.0 ≡ ok
      → IsSound config limit (reserved + bytes) r.1
      → readable_bytes r.1.output + (reserved + bytes) ≤ config.hard_limit
      → Reserves config limit reserved bytes before r
  refused :
      r.0 ≢ ok
      → IsSound config limit reserved r.1
      → r.1.output ≡ before.output
      → Reserves config limit reserved bytes before r

module _ {config : Config} {limit reserved : ℕ} (sane : IsSane config)
    (triple : limit ≤ 3 * config.hard_limit) where
  room_left :
      (c : Connection) (bytes : ℕ)
      → bytes ≤ 2 ^ 33
      → IsSound config limit reserved c
      → ltb c.hard_limit (add_size (add_size c.pending_bytes_estimate c.queued_frame_bytes) bytes)
        ≡ false
      → readable_bytes c.output + (reserved + bytes) ≤ config.hard_limit
  room_left c bytes small s h = ground (arith, sane.small_limit)

  pub record_overload_drop-IsSound :
      {c : Connection}
      → IsSound config limit reserved c
      → IsSound config limit reserved (record_overload_drop c)
  unfolding record_overload_drop
  record_overload_drop-IsSound s = ground arith

  reserved-IsSound :
      {c : Connection} (bytes : ℕ)
      → config.hard_limit ≤ limit
      → IsSound config limit reserved c
      → readable_bytes c.output + (reserved + bytes) ≤ config.hard_limit
      → IsSound config limit
          (reserved + bytes)
          (record c { queued_frame_bytes = add_size c.queued_frame_bytes bytes })
  reserved-IsSound bytes above s h = ground (arith, sane.small_limit)

  -- The same for a reading of what waits that may have passed.
  pub claimed_room :
      (c : Connection) (pending bytes : ℕ)
      → bytes ≤ 2 ^ 33
      → pending ≤ 3 * config.hard_limit
      → IsSound config limit reserved c
      → ltb c.hard_limit (add_size (add_size pending c.queued_frame_bytes) bytes) ≡ false
      → pending + (reserved + bytes) ≤ config.hard_limit
  claimed_room c pending bytes small near s h = ground (arith, sane.small_limit)

  pub claimed-IsSound :
      {c : Connection} (bytes : ℕ)
      → 3 * config.hard_limit ≤ limit
      → IsSound config limit reserved c
      → readable_bytes c.output + reserved ≤ 2 * config.hard_limit
      → reserved + bytes ≤ config.hard_limit
      → IsSound config limit
          (reserved + bytes)
          (record c { queued_frame_bytes = add_size c.queued_frame_bytes bytes })
  claimed-IsSound bytes wide s two one = ground (arith, sane.small_limit)

  pub try_reserve_frame-Reserves :
      (c : Connection) (bytes : ℕ)
      → bytes ≤ 2 ^ 33
      → config.hard_limit ≤ limit
      → IsSound config limit reserved c
      → Reserves config limit reserved bytes c (try_reserve_frame c bytes)
  unfolding try_reserve_frame claim_frame
  try_reserve_frame-Reserves c bytes small above s = elim (Bool-cases (not c.connected)) [
    | inl gone ↦ rw gone (refused (ground arith) s refl)
    | inr here ↦
        rw here
          (elim (Bool-cases (
            ltb c.hard_limit
              (add_size (add_size c.pending_bytes_estimate c.queued_frame_bytes) bytes))) [
                | inl full ↦ rw full (
                    refused (ground arith) (record_overload_drop-IsSound s)
                      (unfold record_overload_drop in refl))
                | inr room ↦ rw room (
                    granted refl (reserved-IsSound bytes above s (room_left c bytes small s room))
                      (room_left c bytes small s room))
              ])
  ]

  store_reserved-IsSound :
      {c : Connection} (f : Frame)
      → IsSound config limit (frame_bytes f + reserved) c
      → IsSound config limit reserved (store_reserved c f)
  unfolding store_reserved
  store_reserved-IsSound {c} f s = ground (arith, appended c.output f.header f.payload s.valid)

  release_reserved_frame-IsSound :
      {c : Connection} (bytes : ℕ)
      → IsSound config limit (bytes + reserved) c
      → IsSound config limit reserved (release_reserved_frame c bytes)
  unfolding release_reserved_frame
  release_reserved_frame-IsSound bytes s = ground arith

  -- A delivery moves a reservation to the bytes that wait, or drops it with the connection.
  pub send_reserved_frame_in_loop-IsSound :
      {c : Connection} (f : Frame) (enabled : Bool)
      → IsSound config limit (frame_bytes f + reserved) c
      → IsSound config limit reserved (send_reserved_frame_in_loop c (some f) enabled)
  unfolding send_reserved_frame_in_loop
  send_reserved_frame_in_loop-IsSound {c} f enabled s =
      either-IsSound sane triple _ (release_reserved_frame-IsSound (frame_bytes f) s)
        (enable_writing-IsSound sane triple enabled (store_reserved-IsSound f s))
