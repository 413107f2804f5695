-- ===== src/Net/Connection/Racing.antt =====
-- Runs of one connection in which the loop of the connection and the base loop work at the same time:
-- `tryReserveFrame` reads the bytes that wait in one step and reserves in a later one, and anything
-- that the loop of the connection does may come in between. One operation of that loop is one step.
pub mod Bounds
use project_chat.Common.{
  ℕ, ◌+◌, ◌*◌, ◌^◌, ◌≤◌, ◌≡◌, List, [], ◌∷◌, ◌++◌, Option, none, some, not, if◌then◌else◌,
}
use project_chat.Net.Connection.{
  Config, Frame, record_overload_drop, claim_frame, frame_bytes, create,
}
use project_chat.Net.Connection.Backlog.{World, Op, after_reserve, step, established}

-- `loaded` is what `tryReserveFrame` has read of `pendingBytesEstimate_`, while it is under way.
pub record Racing : Type 0 where
  pub world : World
  pub loaded : Option ℕ

pub data Act : Type 0 where
  io : Op → Act
  -- The test of `connected_` and the first reading.
  look : Act
  -- The reading after a compare-and-swap that failed.
  again : Act
  -- The compare-and-swap that goes through, or the refusal.
  claim : List ℕ → Act
  -- A refusal, also one that rests on an older reading of `queuedFrameBytes_`.
  refuse : Act

pub claimed : Racing → ℕ → Option Frame → Racing
unfolding after_reserve claim_frame
claimed r pending none = r
claimed r pending (some f) = record {
  world = after_reserve r.world f (claim_frame r.world.connection pending (frame_bytes f));
  loaded = none;
}

pub act : Racing → Act → Racing
unfolding step claimed
act r (io op) = record r { world = step r.world op }
act r look = record r {
  loaded =
      if not r.world.connection.connected
      then none
      else some r.world.connection.pending_bytes_estimate;
}
act r again = record r {
  loaded = elim r.loaded [
    | none ↦ none
    | some pending ↦ some r.world.connection.pending_bytes_estimate
  ];
}
act r (claim payload) = elim r.loaded [
  | none ↦ r
  | some pending ↦ claimed r pending (create payload r.world.connection.max_frame_len)
]
act r refuse = elim r.loaded [
  | none ↦ r
  | some pending ↦ record {
    world = record r.world { connection = record_overload_drop r.world.connection };
    loaded = none;
  }
]

pub race : Racing → List Act → Racing
race r [] = r
race r (a ∷ as') = race (act r a) as'

pub start : Config → Racing
unfolding established
start config = record { world = established config; loaded = none }
