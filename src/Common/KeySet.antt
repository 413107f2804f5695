-- ===== src/Common/KeySet.antt =====
-- std::unordered_set, in the same way as the map.
use mathlib.Core.Path.{◌≡◌, refl}
use mathlib.Core.Logic.{inl, inr}
use mathlib.Core.Bool.{Bool, true, false, not, ◌&&◌, ◌||◌}
use mathlib.Core.List.{List, [], ◌∷◌}
use native.Mathlib.Omega.{arith}
use project_chat.Common.Tests.{if◌then◌else◌, Bool-cases}
use project_chat.Common.Keys.{Key, ◌==◌}

abbrev pub KeySet {ℓ} : Type ℓ → Type ℓ
KeySet K = List K

module _ {ℓ} {K : Type ℓ} ⦃key : Key K⦄ where
  unfoldable pub contains : K → KeySet K → Bool
  contains k [] = false
  contains k (j ∷ s) = (j == k) || contains k s

  unfoldable pub insert : K → KeySet K → KeySet K
  insert k s = if contains k s then s else k ∷ s

  unfoldable pub erase : K → KeySet K → KeySet K
  erase k [] = []
  erase k (j ∷ s) = if j == k then erase k s else j ∷ erase k s

  unfoldable pub empty : KeySet K → Bool
  empty [] = true
  empty (j ∷ s) = false

  pub contains-nil : (k : K) → contains k [] ≡ false
  unfolding contains
  contains-nil k = refl

  contains-cons : (k j : K) (s : KeySet K) → contains j (k ∷ s) ≡ ((k == j) || contains j s)
  unfolding contains
  contains-cons k j s = refl

  insert_old : (k : K) (s : KeySet K) → contains k s ≡ true → insert k s ≡ s
  unfolding insert
  insert_old k s h = rw h

  insert_new : (k : K) (s : KeySet K) → contains k s ≡ false → insert k s ≡ k ∷ s
  unfolding insert
  insert_new k s h = rw h

  pub contains-insert :
      (k j : K) (s : KeySet K) → contains j (insert k s) ≡ ((k == j) || contains j s)
  contains-insert k j s = elim (Bool-cases (contains k s)) [
    | inl old ↦ ground (arith, key.same_iff k j, insert_old k s old)
    | inr new ↦ ground (arith, insert_new k s new, contains-cons k j s)
  ]

  pub contains-erase :
      (k j : K) (s : KeySet K) → contains j (erase k s) ≡ (not (k == j) && contains j s)
  unfolding contains erase
  contains-erase k j [] = ground arith
  contains-erase k j (i ∷ s) =
      ground (arith, key.same_iff k j, key.same_iff i k, key.same_iff i j, contains-erase k j s)

  pub contains_of_empty : (j : K) (s : KeySet K) → empty s ≡ true → contains j s ≡ false
  unfolding empty contains
  contains_of_empty j [] h = refl
  contains_of_empty j (i ∷ s) h = cc

pub ruleset set_laws = (contains-nil, contains-insert, contains-erase)
