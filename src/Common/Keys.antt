-- ===== src/Common/Keys.antt =====
-- Equality of keys as an interface, with its instances for numbers and texts.
use Prim.Native.Nat.{ℕ}
use Prim.Native.String.{String}
use mathlib.Core.Path.{◌≡◌, refl}
use mathlib.Core.Logic.{◌≢◌, ◌↔◌}
use mathlib.Core.Bool.{Bool, true, false}
use native.Mathlib.Omega.{arith}
use text.Mathlib.Text.{◌==◌ as str_eq}
use text.Mathlib.TextEquality.{eq_iff}
use project_chat.Common.Tests.{eqb, eqb_iff}

pub record Key {ℓ} (K : Type ℓ) : Type ℓ where
  pub same : K → K → Bool
  pub same_iff : (a b : K) → (same a b ≡ true) ↔ (a ≡ b)

infix 50 ◌==◌
abbrev pub ◌==◌ {ℓ} : {K : Type ℓ} ⦃key : Key K⦄ → K → K → Bool
◌==◌ ⦃key⦄ = key.same

instance abbrev pub nat_key : Key ℕ
nat_key = record { same = eqb; same_iff = eqb_iff }

instance abbrev pub string_key : Key String
string_key = record { same = str_eq; same_iff = eq_iff }

module _ {ℓ} {K : Type ℓ} ⦃key : Key K⦄ where
  pub eq_self : (a : K) → (a == a) ≡ true
  eq_self a = (key.same_iff a a).1 refl

  pub eq_sound : (a b : K) → (a == b) ≡ true → a ≡ b
  eq_sound a b = (key.same_iff a b).0

  pub eq_of_ne : (a b : K) → a ≢ b → (a == b) ≡ false
  eq_of_ne a b h = ground (arith, key.same_iff a b)

  pub eq_comm : (a b : K) → (a == b) ≡ (b == a)
  eq_comm a b = ground (arith, key.same_iff a b, key.same_iff b a)

abbrev pub is_empty : String → Bool
is_empty s = str_eq s ""

-- The test on texts, for the tactics.
pub text_iff : (a b : String) → ((a == b) ≡ true) ↔ (a ≡ b)
text_iff a b = eq_iff a b
