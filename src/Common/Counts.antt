-- ===== src/Common/Counts.antt =====
-- How often a number stands in a list.
use Prim.Native.Nat.{ℕ, suc, ◌+◌, ◌≤◌}
use mathlib.Core.Path.{◌≡◌, refl}
use mathlib.Core.Bool.{Bool, true, false}
use mathlib.Core.List.{List, [], ◌∷◌, ◌++◌}
use native.Mathlib.Omega.{arith}
use project_chat.Common.Tests.{eqb, if◌then◌else◌}
use project_chat.Common.Lists.{length}

unfoldable pub count : ℕ → List ℕ → ℕ
count k [] = 0
count k (x ∷ xs) = (if eqb x k then 1 else 0) + count k xs

abbrev pub mem : ℕ → List ℕ → Bool
mem k [] = false
mem k (x ∷ xs) = if eqb x k then true else mem k xs

-- Less its first occurrence.
unfoldable pub remove_first : ℕ → List ℕ → List ℕ
remove_first k [] = []
remove_first k (x ∷ xs) = if eqb x k then xs else x ∷ remove_first k xs

pub count-nil : (k : ℕ) → count k [] ≡ 0
unfolding count
count-nil k = refl

pub count-cons :
    (k x : ℕ) (xs : List ℕ) → count k (x ∷ xs) ≡ (if eqb x k then 1 else 0) + count k xs
unfolding count
count-cons k x xs = refl

pub count-append : (k : ℕ) (xs ys : List ℕ) → count k (xs ++ ys) ≡ count k xs + count k ys
unfolding count
count-append k [] ys = omega arith
count-append k (x ∷ xs) ys = ground (arith, count-append k xs ys)

pub count_of_mem : (k : ℕ) (xs : List ℕ) → mem k xs ≡ true → 1 ≤ count k xs
unfolding count
count_of_mem k [] h = cc
count_of_mem k (x ∷ xs) h = ground (arith, count_of_mem k xs, h)

pub count-remove_first :
    (j k : ℕ) (xs : List ℕ)
    → mem k xs ≡ true
    → count j (remove_first k xs) + (if eqb k j then 1 else 0) ≡ count j xs
unfolding count remove_first
count-remove_first j k [] h = cc
count-remove_first j k (x ∷ xs) h = ground (arith, count-remove_first j k xs, h)

pub length-remove_first :
    (k : ℕ) (xs : List ℕ) → mem k xs ≡ true → suc (length (remove_first k xs)) ≡ length xs
unfolding remove_first
length-remove_first k [] h = cc
length-remove_first k (x ∷ xs) h = ground (arith, length-remove_first k xs, h)
