-- ===== src/Net/Connection/Racing/Bounds.antt =====
-- What waits in one connection in such runs.
use mathlib.Core.Path.{subst}
use project_chat.Common.{
  ℕ, ◌+◌, ◌*◌, ◌^◌, ◌≤◌, ◌≡◌, refl, sym, List, [], ◌∷◌, ◌++◌, Bool, Option, none, some, arith,
  if-cases, not, ltb, Option-both, Bool-cases, inl, inr,
}
use project_chat.Net.Buffer.{readable_bytes}
use project_chat.Net.Buffer.Contents.{new-IsValid, readable_bytes-new}
use project_chat.Net.Connection.{
  Config, Connection, Frame, add_size, claim_frame, frame_bytes, create, SendResult, ok,
  try_reserve_frame,
}
use project_chat.Net.Connection.Limits.{
  IsSane, IsSound, Reserves, granted, refused, handle_close-IsSound, send_in_loop-IsSound,
  record_overload_drop-IsSound, claimed_room, claimed-IsSound, handle_write-IsSound,
  try_reserve_frame-Reserves, send_reserved_frame_in_loop-IsSound,
}
use project_chat.Net.Connection.Backlog.{
  World, Op, send, broadcast, deliver, write, close, after_reserve, broadcast_frame, deliver_next,
  step, established,
}
use project_chat.Net.Connection.Racing.{
  Racing, Act, io, look, again, claim, refuse, claimed, act, race, start,
}

abbrev pub total : List Frame → ℕ
total [] = 0
total (f ∷ fs) = frame_bytes f + total fs

total-append : (fs gs : List Frame) → total (fs ++ gs) ≡ total fs + total gs
total-append [] gs = omega arith
total-append (f ∷ fs) gs = omega (arith, total-append fs gs)

abbrev pub Sound : Config → ℕ → World → Type 0
Sound config limit w = IsSound config limit (total w.in_flight) w.connection

frame_bytes-create :
    (payload : List ℕ) (m : ℕ) {f : Frame} → create payload m ≡ some f → frame_bytes f ≤ 2 ^ 33
unfolding create
frame_bytes-create payload m e = ground arith

-- A direct send looks at the buffer alone, so it may come on top of all that is reserved.
abbrev MayRun : Config → ℕ → Op → Type 0
MayRun config limit (send msg enabled) = 2 * config.hard_limit ≤ limit
MayRun config limit _ = Unit

may_run :
    (config : Config) (limit : ℕ) (op : Op) → 2 * config.hard_limit ≤ limit → MayRun config limit op
may_run config limit (send msg enabled) h = h
may_run config limit (broadcast payload) h = tt
may_run config limit (deliver enabled) h = tt
may_run config limit (write results disabled) h = tt
may_run config limit close h = tt

module _ (config : Config) (sane : IsSane config) (limit : ℕ)
    (triple : limit ≤ 3 * config.hard_limit) (above : config.hard_limit ≤ limit) where
  after_reserve-Sound :
      (w : World) (f : Frame) (r : SendResult × Connection)
      → Reserves config limit (total w.in_flight) (frame_bytes f) w.connection r
      → Sound config limit (after_reserve w f r)
  unfolding after_reserve
  after_reserve-Sound w f (ok, c) (granted e s b) =
      subst (λ n. IsSound config limit n c) (omega (arith, total-append w.in_flight (f ∷ []))) s
  after_reserve-Sound w f (ok, c) (refused e s o) = absurd (e refl)
  after_reserve-Sound w f (_, c) (granted e s b) = cc
  after_reserve-Sound w f (_, c) (refused e s o) = s

  broadcast_frame-Sound :
      (w : World) (o : Option Frame)
      → ((f : Frame) → o ≡ some f → frame_bytes f ≤ 2 ^ 33)
      → Sound config limit w
      → Sound config limit (broadcast_frame w o)
  unfolding broadcast_frame
  broadcast_frame-Sound w none small s = s
  broadcast_frame-Sound w (some f) small s =
      after_reserve-Sound w f (try_reserve_frame w.connection (frame_bytes f))
        (try_reserve_frame-Reserves sane triple w.connection (frame_bytes f) (small f refl) above s)

  deliver_next-Sound :
      (w : World) (fs : List Frame) (enabled : Bool)
      → IsSound config limit (total fs) w.connection
      → Sound config limit w
      → Sound config limit (deliver_next w fs enabled)
  unfolding deliver_next
  deliver_next-Sound w [] enabled t s = s
  deliver_next-Sound w (f ∷ fs) enabled t s =
      send_reserved_frame_in_loop-IsSound sane triple f enabled t

  step-Sound :
      (w : World) (op : Op)
      → MayRun config limit op
      → Sound config limit w
      → Sound config limit (step w op)
  unfolding step
  step-Sound w (send msg enabled) may s =
      send_in_loop-IsSound sane triple msg enabled (omega (arith, s.reservable)) s
  step-Sound w (broadcast payload) may s =
      broadcast_frame-Sound w (create payload w.connection.max_frame_len)
        (λ f. frame_bytes-create payload w.connection.max_frame_len) s
  step-Sound w (deliver enabled) may s = deliver_next-Sound w w.in_flight enabled s s
  step-Sound w (write results disabled) may s =
      handle_write-IsSound sane triple results disabled w.connection s
  step-Sound w close may s = handle_close-IsSound sane triple s

  established-Sound : Sound config limit (established config)
  unfolding established
  established-Sound = record {
    fixed = refl;
    valid = new-IsValid;
    estimated = sym readable_bytes-new;
    queued = refl;
    reservable = omega arith;
    bounded = omega (arith, readable_bytes-new);
  }

-- What waits keeps to three times the hard limit; and to twice the limit since a reading that left
-- room.
abbrev Stale : Config → Option ℕ → World → Type 0
Stale config none w = Unit
Stale config (some pending) w =
    (pending ≤ 3 * config.hard_limit)
    × (pending ≤ config.hard_limit → Sound config (2 * config.hard_limit) w)

abbrev Fine : Config → Racing → Type 0
Fine config r = Sound config (3 * config.hard_limit) r.world × Stale config r.loaded r.world

module _ (config : Config) (sane : IsSane config) where
  stepped-Stale :
      (o : Option ℕ) (w : World) (op : Op) → Stale config o w → Stale config o (step w op)
  stepped-Stale none w op s = tt
  stepped-Stale (some pending) w op s = (
    s.0,
    λ low.
        step-Sound config sane (2 * config.hard_limit) (omega arith) (omega arith) w op
          (may_run config (2 * config.hard_limit) op (omega arith)) (s.1 low),
  )

  looked-Stale :
      (w : World)
      → Sound config (3 * config.hard_limit) w
      → Stale config (some w.connection.pending_bytes_estimate) w
  looked-Stale w s = (
    omega (arith, s.estimated, s.bounded),
    λ low. record {
      fixed = s.fixed;
      valid = s.valid;
      estimated = s.estimated;
      queued = s.queued;
      reservable = s.reservable;
      bounded = omega (arith, s.estimated, s.reservable, low);
    },
  )

  claimed-Fine :
      (r : Racing) (pending : ℕ) (o : Option Frame)
      → ((f : Frame) → o ≡ some f → frame_bytes f ≤ 2 ^ 33)
      → Sound config (3 * config.hard_limit) r.world
      → Stale config (some pending) r.world
      → Stale config r.loaded r.world
      → Fine config (claimed r pending o)
  unfolding claimed after_reserve claim_frame
  claimed-Fine r pending none small s t l = (s, l)
  claimed-Fine r pending (some f) small s t l =
      let w = r.world in
      let c = w.connection in
      elim (Bool-cases
        (ltb c.hard_limit (add_size (add_size pending c.queued_frame_bytes) (frame_bytes f)))) [
          | inl full ↦ rw full (record_overload_drop-IsSound sane (omega arith) s, tt)
          | inr room ↦
              let left =
                claimed_room sane (omega arith) c pending (frame_bytes f) (small f refl) t.0 s
                  room in
              let before = t.1 (omega (arith, left)) in
              rw room (
                subst
                    (λ n. IsSound config (3 * config.hard_limit) n (record c {
                      queued_frame_bytes = add_size c.queued_frame_bytes (frame_bytes f);
                    }))
                    (omega (arith, total-append w.in_flight (f ∷ [])))
                    (claimed-IsSound sane (omega arith) (frame_bytes f) (omega arith) s
                      before.bounded (omega (arith, left))),
                tt,
              )
        ]

  act-Fine : (r : Racing) (a : Act) → Fine config r → Fine config (act r a)
  unfolding act
  act-Fine r (io op) (s, t) = (
    step-Sound config sane (3 * config.hard_limit) (omega arith) (omega arith) r.world op
        (may_run config (3 * config.hard_limit) op (omega arith)) s,
    stepped-Stale r.loaded r.world op t,
  )
  act-Fine r look (s, t) = (
    s,
    if-cases (λ (o : Option ℕ). Stale config o r.world) (not r.world.connection.connected) (λ _. tt)
        (λ _. looked-Stale r.world s),
  )
  act-Fine r again (s, t) = (
    s,
    Option-both (λ (o : Option ℕ). Stale config o r.world) r.loaded (λ _. tt)
        (λ _ _. looked-Stale r.world s),
  )
  act-Fine r (claim payload) (s, t) =
      Option-both (Fine config) r.loaded (λ _. (s, t))
        (λ pending there.
          claimed-Fine r pending (create payload r.world.connection.max_frame_len)
            (λ f. frame_bytes-create payload r.world.connection.max_frame_len) s
            (subst (λ (o : Option ℕ). Stale config o r.world) there t) t)
  act-Fine r refuse (s, t) =
      Option-both (Fine config) r.loaded (λ _. (s, t))
        (λ _ _. (record_overload_drop-IsSound sane (omega arith) s, tt))

  race-Fine : (r : Racing) (as' : List Act) → Fine config r → Fine config (race r as')
  unfolding race
  race-Fine r [] f = f
  race-Fine r (a ∷ as') f = race-Fine (act r a) as' (act-Fine r a f)

-- Of what waits in one connection after any run in which its loop and the base loop work at the same
-- time, the reserved bytes are those of the frames in flight and keep to the hard limit, and all of
-- it keeps to three times that limit: a direct send does not count the reserved bytes, and a
-- reservation may rest on a reading of the waiting bytes from before that send. The configuration is
-- one whose limits keep the sums of the send paths from wrapping.
pub race-start_bounded :
    (config : Config) (as' : List Act)
    → IsSane config
    → let w = (race (start config) as').world in
      (w.connection.queued_frame_bytes ≡ total w.in_flight)
      × (w.connection.queued_frame_bytes ≤ config.hard_limit)
      × (readable_bytes w.connection.output + total w.in_flight ≤ 3 * config.hard_limit)
unfolding start
race-start_bounded config as' sane =
    let (s, t) =
      race-Fine config sane (start config) as'
        (established-Sound config sane (3 * config.hard_limit) (omega arith) (omega arith), tt) in
    (s.queued, omega (arith, s.queued, s.reservable), s.bounded)
