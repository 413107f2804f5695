-- ===== src/Id/SnowflakeIdGenerator/Advances.antt =====
-- One call of a generator: where it leaves the state, and the id it gives.
use Prim.Native.Nat.{bit_and, bit_or}
use project_chat.Common.{
  ℕ, ◌+◌, ◌-◌, ◌*◌, ◌/◌, ◌%◌, ◌^◌, ◌≤◌, ◌<◌, ◌≡◌, refl, ◌∙◌, ap, ap₂, Option, none, some, List, [],
  ◌∷◌, ltb, leb, eqb, arith, Bool-cases, inl, inr, lt_of_leb, le_of_ltb,
}
use project_chat.Common.Bits.{bit_or-low, bit_and-low}
use project_chat.Id.SnowflakeIdGenerator.{
  SnowflakeIdGenerator, Outcome, issued, before_epoch, asleep, wait_past, compose_id, finish,
  take_sequence, next_id,
}

abbrev pub AllBelow : ℕ → List ℕ → Type 0
AllBelow n [] = Unit
AllBelow n (x ∷ xs) = (x < n) × AllBelow n xs

-- The three fields side by side.
abbrev pub ident : SnowflakeIdGenerator → ℕ
ident g = (g.last_timestamp_ms - g.epoch_ms) * 2 ^ 22 + g.node_id * 2 ^ 12 + g.sequence

pub record Fits (g : SnowflakeIdGenerator) : Type 0 where
  pub node : g.node_id ≤ 1023
  pub few : g.sequence < 4096
  pub early : g.last_timestamp_ms < g.epoch_ms + 2 ^ 42

compose_id-ident : (g : SnowflakeIdGenerator) → Fits g → compose_id g ≡ ident g
unfolding compose_id
compose_id-ident g f =
    let time : ℕ = g.last_timestamp_ms - g.epoch_ms in
    let shifted : time * 2 ^ 22 % 2 ^ 64 ≡ time * 2 ^ 22 = omega (arith, f.early) in
    let node : g.node_id * 2 ^ 12 % 2 ^ 64 ≡ g.node_id * 2 ^ 12 = omega (arith, f.node) in
    let high : bit_or (time * 2 ^ 22) (g.node_id * 2 ^ 12) ≡ (time * 2 ^ 10 + g.node_id) * 2 ^ 12 =
      bit_or-low 22 time (g.node_id * 2 ^ 12) (omega (arith, f.node)) ∙ omega arith in
    ap₂ (λ a b. bit_or (bit_or a b) g.sequence) shifted node
    ∙ ap (λ a. bit_or a g.sequence) high
    ∙ bit_or-low 12 (time * 2 ^ 10 + g.node_id) g.sequence f.few
    ∙ omega arith

-- The state moves on, by the time first and then by the sequence.
pub record Later (g h : SnowflakeIdGenerator) : Type 0 where
  pub node : h.node_id ≡ g.node_id
  pub epoch : h.epoch_ms ≡ g.epoch_ms
  pub on : g.last_timestamp_ms * 4096 + g.sequence < h.last_timestamp_ms * 4096 + h.sequence
  pub fits : Fits h

abbrev pub Advances : SnowflakeIdGenerator → Outcome → Type 0
Advances g (issued id h) = Later g h × (g.epoch_ms ≤ h.last_timestamp_ms) × (id ≡ ident h)
Advances g (before_epoch h) = Later g h
Advances g _ = Unit

finish-Advances :
    (g : SnowflakeIdGenerator) (now s : ℕ)
    → Fits g
    → s < 4096
    → now < g.epoch_ms + 2 ^ 42
    → g.last_timestamp_ms * 4096 + g.sequence < now * 4096 + s
    → Advances g (finish g now s)
unfolding finish
finish-Advances g now s f few early on =
    let h : SnowflakeIdGenerator = record g { last_timestamp_ms = now; sequence = s } in
    let fits : Fits h = record { node = f.node; few = few; early = early } in
    let later : Later g h = record { node = refl; epoch = refl; on = on; fits = fits } in
    elim (Bool-cases (ltb now g.epoch_ms)) [
      | inl before ↦ rw before later
      | inr since ↦ rw since (later, le_of_ltb _ _ since, compose_id-ident h fits)
    ]

-- What the waiting comes to.
abbrev Past : ℕ → ℕ → Option (ℕ × List ℕ) → Type 0
Past last bound none = Unit
Past last bound (some (t, rest)) = (last < t) × (t < bound) × AllBelow bound rest

wait_past-Past :
    (last now : ℕ) (rs : List ℕ) (bound : ℕ)
    → now < bound
    → AllBelow bound rs
    → Past last bound (wait_past last now rs)
unfolding wait_past
wait_past-Past last now [] bound h below = elim (Bool-cases (leb now last)) [
  | inl waits ↦ rw waits tt
  | inr past ↦ rw past (lt_of_leb _ _ past, h, tt)
]
wait_past-Past last now (r ∷ rs) bound h below = elim (Bool-cases (leb now last)) [
  | inl waits ↦ rw waits (wait_past-Past last r rs bound below.0 below.1)
  | inr past ↦ rw past (lt_of_leb _ _ past, h, below)
]

-- A step that waits first, and then goes on with a later reading.
waited-Advances :
    (g : SnowflakeIdGenerator) (bound : ℕ) (w : Option (ℕ × List ℕ)) (k : ℕ → List ℕ → Outcome)
    → Past g.last_timestamp_ms bound w
    → ((t : ℕ) (rest : List ℕ)
        → g.last_timestamp_ms < t
        → t < bound
        → AllBelow bound rest
        → Advances g (k t rest))
    → Advances g (elim w [ none ↦ asleep | some (t, rest) ↦ k t rest ])
waited-Advances g bound none k p h = tt
waited-Advances g bound (some (t, rest)) k p h = h t rest p.0 p.1 p.2

masked : (s : ℕ) → bit_and s 4095 ≡ s % 4096
masked s =
    ap (λ t. bit_and t 4095) (omega arith) ∙ bit_and-low 12 (s / 4096) (s % 4096) (omega arith)

take_sequence-Advances :
    (g : SnowflakeIdGenerator) (now : ℕ) (rs : List ℕ)
    → Fits g
    → g.last_timestamp_ms ≤ now
    → now < g.epoch_ms + 2 ^ 42
    → AllBelow (g.epoch_ms + 2 ^ 42) rs
    → Advances g (take_sequence g now rs)
unfolding take_sequence
take_sequence-Advances g now rs f later early below =
    let next : bit_and (g.sequence + 1) 4095 ≡ (g.sequence + 1) % 4096 = masked (g.sequence + 1) in
    rw next (elim (Bool-cases (eqb now g.last_timestamp_ms)) [
      | inl same ↦ rw same (elim (Bool-cases (eqb ((g.sequence + 1) % 4096) 0)) [
        | inl full ↦ rw full (
            waited-Advances g (g.epoch_ms + 2 ^ 42) (wait_past g.last_timestamp_ms now rs)
              (λ t rest. finish g t 0) (wait_past-Past g.last_timestamp_ms now rs _ early below)
              (λ t rest after bound rs'.
                finish-Advances g t 0 f (omega arith) bound (omega (arith, f.few))))
        | inr free ↦ rw free (
            finish-Advances g now ((g.sequence + 1) % 4096) f (omega arith) early
              (ground (arith, f.few, free, same)))
      ])
      | inr fresh ↦
          rw fresh
            (finish-Advances g now 0 f (omega arith) early (ground (arith, f.few, fresh, later)))
    ])

pub next_id-Advances :
    (g : SnowflakeIdGenerator) (rs : List ℕ)
    → Fits g
    → AllBelow (g.epoch_ms + 2 ^ 42) rs
    → Advances g (next_id g rs)
unfolding next_id
next_id-Advances g [] f below = tt
next_id-Advances g (now ∷ rs) f below = elim (Bool-cases (ltb now g.last_timestamp_ms)) [
  | inl back ↦ rw back (elim (Bool-cases (leb (g.last_timestamp_ms - now) 5)) [
    | inl little ↦ rw little (
        waited-Advances g (g.epoch_ms + 2 ^ 42) (wait_past g.last_timestamp_ms now rs)
          (take_sequence g) (wait_past-Past g.last_timestamp_ms now rs _ below.0 below.1)
          (λ t rest after bound below'.
            take_sequence-Advances g t rest f (omega arith) bound below'))
    | inr much ↦ rw much tt
  ])
  | inr on ↦ rw on (take_sequence-Advances g now rs f (le_of_ltb _ _ on) below.0 below.1)
]
