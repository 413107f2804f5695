-- ===== src/Tests/Network.antt =====
-- The network layer at concrete inputs.
use mathlib.Core.List.{flatten}
use project_chat.Common.{
  ℕ, ◌≡◌, ◌∙◌, ap, List, [], ◌∷◌, ◌++◌, map, ◌+◌, ◌*◌, ◌≤◌, ◌≢◌, refl, arith, true,
}
use project_chat.Net.Buffer.{Buffer, new, readable_bytes}
use project_chat.Net.Buffer.Contents.{contents, new-IsValid, contents-new}
use project_chat.Net.Frame.{
  handle_control_frame, waiting, received, handle_read, parse_frames, closed, exhausted,
}
use project_chat.Net.Frame.Decoding.{encode, encode_all, round-nil, byte_round}
use project_chat.Net.Frame.Stream.{handle_read-encode_all}
use project_chat.Net.Frame.Decoding.Ends.{parse_frames_oversize, parse_frames_ends}
use project_chat.Net.Connection.{Config}
use project_chat.Net.Connection.Limits.{IsSane}
use project_chat.Net.Connection.Backlog.{send, deliver}
use project_chat.Net.Connection.Racing.{Act, io, look, claim, race, start}
use project_chat.Net.Connection.Racing.Bounds.{total, race-start_bounded}

-- "hi" and an empty message, in three reads.
abbrev reads : List (List ℕ)
reads = (0 ∷ 0 ∷ 0 ∷ []) ∷ (2 ∷ 104 ∷ []) ∷ (105 ∷ 0 ∷ 0 ∷ 0 ∷ 0 ∷ []) ∷ []

abbrev payloads : List (List ℕ)
payloads = (104 ∷ 105 ∷ []) ∷ [] ∷ []

handle_read-encode_all_example :
    ((handle_read 100 (map received reads) new).events ≡ map handle_control_frame payloads)
    × ((handle_read 100 (map received reads) new).status ≡ waiting)
    × (contents (handle_read 100 (map received reads) new).rest ≡ [])
unfolding encode_all encode flatten
handle_read-encode_all_example =
    handle_read-encode_all 100 reads payloads new (omega arith) new-IsValid (omega arith)
      (tt, (tt, (tt, tt))) (ap (λ ys. ys ++ flatten reads) contents-new)
      (ap (byte_round 100) contents-new ∙ round-nil 100)

abbrev config : Config
config = record {
  max_frame_len = 65536;
  high_water_mark = 100;
  low_water_mark = 50;
  hard_limit = 200;
  max_overload_drop_count = 3;
}

config-IsSane : IsSane config
config-IsSane = omega arith

-- A direct send comes between the reading and the reservation.
abbrev acts : List Act
acts = look ∷ io (send (3 ∷ []) true) ∷ claim (1 ∷ 2 ∷ []) ∷ io (deliver true) ∷ []

race-start_bounded_example :
    let w = (race (start config) acts).world in
    (w.connection.queued_frame_bytes ≡ total w.in_flight)
    × (w.connection.queued_frame_bytes ≤ 200)
    × (readable_bytes w.connection.output + total w.in_flight ≤ 3 * 200)
race-start_bounded_example = race-start_bounded config acts config-IsSane

-- "hi", then a length of 101.
abbrev oversize : Buffer
oversize = record {
  bytes = 0 ∷ 0 ∷ 0 ∷ 0 ∷ 0 ∷ 0 ∷ 0 ∷ 0 ∷ 0 ∷ 0 ∷ 0 ∷ 2 ∷ 104 ∷ 105 ∷ 0 ∷ 0 ∷ 0 ∷ 101 ∷ 7 ∷ [];
  reader_index = 8;
  writer_index = 19;
}

parse_frames_oversize_example :
    ((parse_frames 100 oversize).events ≡ map handle_control_frame ((104 ∷ 105 ∷ []) ∷ []))
    × ((parse_frames 100 oversize).status ≡ closed)
unfolding encode_all encode
parse_frames_oversize_example =
    parse_frames_oversize 100 (omega arith) 101 ((104 ∷ 105 ∷ []) ∷ []) oversize (7 ∷ [])
      (omega arith) (omega arith) (omega arith) (omega arith) refl

parse_frames_ends_example : (parse_frames 100 oversize).status ≢ exhausted
parse_frames_ends_example = parse_frames_ends 100 (omega arith) oversize (omega arith)
