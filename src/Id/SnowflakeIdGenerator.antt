-- ===== src/Id/SnowflakeIdGenerator.antt =====
-- src/id/SnowflakeIdGenerator.cpp. The readings of `system_clock` are a list; a call takes as many
-- as it needs. `mutex_` is held from end to end, so a call is one step on the generator.
pub mod Advances
pub mod Increasing
use Prim.Native.Nat.{bit_and, bit_or}
use Prim.Native.String.{◌++◌ as ◌<>◌}
use project_chat.Common.{
  ℕ, ◌+◌, ◌-◌, ◌*◌, ◌%◌, ◌^◌, String, Option, none, some, List, [], ◌∷◌, ltb, leb, eqb, ◌||◌,
  if◌then◌else◌,
}

pub record SnowflakeIdGenerator : Type 0 where
  pub node_id : ℕ
  pub epoch_ms : ℕ
  pub last_timestamp_ms : ℕ
  pub sequence : ℕ

-- The constructor throws on a node of more than ten bits or an epoch that is not over.
unfoldable pub new : ℕ → ℕ → ℕ → Option SnowflakeIdGenerator
new node_id epoch_ms now_ms =
    if ltb 1023 node_id || leb now_ms epoch_ms
    then none
    else some
        (record { node_id = node_id; epoch_ms = epoch_ms; last_timestamp_ms = 0; sequence = 0 })

-- What a call comes to: an id, one of the two exceptions, or no reading of the clock is left.
pub data Outcome : Type 0 where
  issued : ℕ → SnowflakeIdGenerator → Outcome
  moved_backwards : Outcome
  before_epoch : SnowflakeIdGenerator → Outcome
  asleep : Outcome

-- `while(nowMs<=lastTimestampMs_)`: the reading that ends the loop, and those behind it.
pub wait_past : ℕ → ℕ → List ℕ → Option (ℕ × List ℕ)
wait_past last now [] = if leb now last then none else some (now, [])
wait_past last now (reading ∷ readings) =
    let waited = wait_past last reading readings in
    if leb now last then waited else some (now, reading ∷ readings)

abbrev pub left_shift : ℕ → ℕ → ℕ
left_shift a n = a * 2 ^ n % 2 ^ 64

pub compose_id : SnowflakeIdGenerator → ℕ
compose_id g =
    bit_or (bit_or (left_shift (g.last_timestamp_ms - g.epoch_ms) 22) (left_shift g.node_id 12))
      g.sequence

-- From `lastTimestampMs_=nowMs` on.
pub finish : SnowflakeIdGenerator → ℕ → ℕ → Outcome
unfolding compose_id
finish g now sequence =
    let stamped : SnowflakeIdGenerator = record g {
      last_timestamp_ms = now;
      sequence = sequence;
    } in
    if ltb now g.epoch_ms then before_epoch stamped else issued (compose_id stamped) stamped

-- From the test for the same millisecond on.
pub take_sequence : SnowflakeIdGenerator → ℕ → List ℕ → Outcome
unfolding finish wait_past
take_sequence g now readings =
    let sequence = bit_and (g.sequence + 1) 4095 in
    if eqb now g.last_timestamp_ms
    then if eqb sequence 0
      then elim (wait_past g.last_timestamp_ms now readings) [
        | none ↦ asleep
        | some (later, rest) ↦ finish g later 0
      ]
      else finish g now sequence
    else finish g now 0

pub next_id : SnowflakeIdGenerator → List ℕ → Outcome
unfolding take_sequence wait_past
next_id g [] = asleep
next_id g (now ∷ readings) =
    if ltb now g.last_timestamp_ms
    then if leb (g.last_timestamp_ms - now) 5
      then elim (wait_past g.last_timestamp_ms now readings) [
        | none ↦ asleep
        | some (later, rest) ↦ take_sequence g later rest
      ]
      else moved_backwards
    else take_sequence g now readings

-- `nextStringId`, with the text of a number as a parameter; `none` is no id.
pub next_string_id :
    (ℕ → String) → String → SnowflakeIdGenerator → List ℕ → Option String × SnowflakeIdGenerator
unfolding next_id
next_string_id to_string prefix g readings = elim (next_id g readings) [
  | issued id after ↦ (some (prefix <> to_string id), after)
  | before_epoch after ↦ (none, after)
  | _ ↦ (none, g)
]
