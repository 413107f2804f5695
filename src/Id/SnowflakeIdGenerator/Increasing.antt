-- ===== src/Id/SnowflakeIdGenerator/Increasing.antt =====
-- The ids of one generator, one call after the other.
use mathlib.Core.Path.{subst}
use project_chat.Common.{ℕ, ◌+◌, ◌^◌, ◌≤◌, ◌<◌, ◌≡◌, sym, some, List, [], ◌∷◌, arith}
use project_chat.Id.SnowflakeIdGenerator.{
  SnowflakeIdGenerator, Outcome, issued, moved_backwards, before_epoch, asleep, next_id, new,
}
use project_chat.Id.SnowflakeIdGenerator.Advances.{
  AllBelow, ident, Fits, Later, Advances, next_id-Advances,
}

-- The ids of the calls that issue one, each call with its own readings of the clock.
pub run : SnowflakeIdGenerator → List (List ℕ) → List ℕ
run g [] = []
run g (readings ∷ calls) = elim (next_id g readings) [
  | issued id after ↦ id ∷ run after calls
  | before_epoch after ↦ run after calls
  | moved_backwards ↦ run g calls
  | asleep ↦ []
]

abbrev pub AllAbove : ℕ → List ℕ → Type 0
AllAbove n [] = Unit
AllAbove n (x ∷ xs) = (n < x) × AllAbove n xs

-- Each is below all that follow.
abbrev pub Increasing : List ℕ → Type 0
Increasing [] = Unit
Increasing (x ∷ xs) = AllAbove x xs × Increasing xs

abbrev pub CallsBelow : ℕ → List (List ℕ) → Type 0
CallsBelow n [] = Unit
CallsBelow n (rs ∷ calls) = AllBelow n rs × CallsBelow n calls

above_trans : (a b : ℕ) (xs : List ℕ) → a < b → AllAbove b xs → AllAbove a xs
above_trans a b [] h k = tt
above_trans a b (x ∷ xs) h k = (omega (arith, k.0), above_trans a b xs h k.1)

ident-lt :
    (g h : SnowflakeIdGenerator)
    → Fits g
    → Later g h
    → g.epoch_ms ≤ g.last_timestamp_ms
    → ident g < ident h
ident-lt g h f l e = omega (arith, l.on, l.epoch, l.node, l.fits.few, f.few)

abbrev goes_on : Outcome → SnowflakeIdGenerator → List (List ℕ) → List ℕ
unfolding run
goes_on o g calls = elim o [
  | issued id after ↦ id ∷ run after calls
  | before_epoch after ↦ run after calls
  | moved_backwards ↦ run g calls
  | asleep ↦ []
]

on_or_after :
    (g h : SnowflakeIdGenerator)
    → Later g h
    → g.epoch_ms ≤ g.last_timestamp_ms
    → h.epoch_ms ≤ h.last_timestamp_ms
on_or_after g h l e = omega (arith, l.on, l.epoch, l.fits.few)

same_bound :
    (g h : SnowflakeIdGenerator) (calls : List (List ℕ))
    → Later g h
    → CallsBelow (g.epoch_ms + 2 ^ 42) calls
    → CallsBelow (h.epoch_ms + 2 ^ 42) calls
same_bound g h calls l b = subst (λ e. CallsBelow (e + 2 ^ 42) calls) (sym l.epoch) b

goes_on-AllAbove :
    (g : SnowflakeIdGenerator) (o : Outcome) (calls : List (List ℕ))
    → Fits g
    → g.epoch_ms ≤ g.last_timestamp_ms
    → CallsBelow (g.epoch_ms + 2 ^ 42) calls
    → ((h : SnowflakeIdGenerator)
        → Fits h
        → h.epoch_ms ≤ h.last_timestamp_ms
        → CallsBelow (h.epoch_ms + 2 ^ 42) calls
        → AllAbove (ident h) (run h calls))
    → Advances g o
    → AllAbove (ident g) (goes_on o g calls)
unfolding goes_on
goes_on-AllAbove g (issued id h) calls f e below ih a =
    let less = ident-lt g h f a.0 e in
    (
      omega (arith, less, a.2),
      above_trans (ident g) (ident h) (run h calls) less
          (ih h a.0.fits (on_or_after g h a.0 e) (same_bound g h calls a.0 below)),
    )
goes_on-AllAbove g (before_epoch h) calls f e below ih a =
    above_trans (ident g) (ident h) (run h calls) (ident-lt g h f a e)
      (ih h a.fits (on_or_after g h a e) (same_bound g h calls a below))
goes_on-AllAbove g moved_backwards calls f e below ih a = ih g f e below
goes_on-AllAbove g asleep calls f e below ih a = tt

run-AllAbove :
    (calls : List (List ℕ)) (g : SnowflakeIdGenerator)
    → Fits g
    → g.epoch_ms ≤ g.last_timestamp_ms
    → CallsBelow (g.epoch_ms + 2 ^ 42) calls
    → AllAbove (ident g) (run g calls)
unfolding run goes_on
run-AllAbove [] g f e below = tt
run-AllAbove (rs ∷ calls) g f e below =
    goes_on-AllAbove g (next_id g rs) calls f e below.1 (run-AllAbove calls)
      (next_id-Advances g rs f below.0)

goes_on-Increasing :
    (g : SnowflakeIdGenerator) (o : Outcome) (calls : List (List ℕ))
    → Fits g
    → CallsBelow (g.epoch_ms + 2 ^ 42) calls
    → ((h : SnowflakeIdGenerator)
        → Fits h
        → CallsBelow (h.epoch_ms + 2 ^ 42) calls
        → Increasing (run h calls))
    → Advances g o
    → Increasing (goes_on o g calls)
unfolding goes_on
goes_on-Increasing g (issued id h) calls f below ih a =
    let below_h = same_bound g h calls a.0 below in
    (
      subst (λ n. AllAbove n (run h calls)) (sym a.2)
          (run-AllAbove calls h a.0.fits (omega (arith, a.1, a.0.epoch)) below_h),
      ih h a.0.fits below_h,
    )
goes_on-Increasing g (before_epoch h) calls f below ih a =
    ih h a.fits (same_bound g h calls a below)
goes_on-Increasing g moved_backwards calls f below ih a = ih g f below
goes_on-Increasing g asleep calls f below ih a = tt

run-Increasing_from :
    (calls : List (List ℕ)) (g : SnowflakeIdGenerator)
    → Fits g
    → CallsBelow (g.epoch_ms + 2 ^ 42) calls
    → Increasing (run g calls)
unfolding run goes_on
run-Increasing_from [] g f below = tt
run-Increasing_from (rs ∷ calls) g f below =
    goes_on-Increasing g (next_id g rs) calls f below.1 (run-Increasing_from calls)
      (next_id-Advances g rs f below.0)

new_lem :
    (node_id epoch_ms now_ms : ℕ) (g : SnowflakeIdGenerator)
    → new node_id epoch_ms now_ms ≡ some g
    → Fits g × (g.epoch_ms ≡ epoch_ms)
unfolding new
new_lem node_id epoch_ms now_ms g e = ground (arith, e)

-- The ids that a new generator issues, over any number of calls and whatever the clock says at
-- each of their readings, backwards included, strictly increase, so no id is issued twice, as
-- long as the readings stay below 2 ^ 42 milliseconds after the epoch.
pub run-Increasing :
    (node_id epoch_ms now_ms : ℕ) (g : SnowflakeIdGenerator) (calls : List (List ℕ))
    → new node_id epoch_ms now_ms ≡ some g
    → CallsBelow (epoch_ms + 2 ^ 42) calls
    → Increasing (run g calls)
run-Increasing node_id epoch_ms now_ms g calls e below =
    let (f, same) = new_lem node_id epoch_ms now_ms g e in
    run-Increasing_from calls g f (subst (λ t. CallsBelow (t + 2 ^ 42) calls) (sym same) below)
