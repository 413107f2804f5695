-- ===== src/Storage/PreparedStatementCache/Names.antt =====
-- A list of names without its last one, and the size of a map.
use project_chat.Common.{
  ◌+◌, ◌≤◌, ◌<◌, ◌≡◌, refl, ◌∙◌, String, Bool, true, false, not, ◌&&◌, ◌||◌, List, [], ◌∷◌, length,
  ◌==◌, string_key, arith, text_iff, eq_sound, if-cases, Bool-cases, inl, inr,
}
use project_chat.Common.KeySet
use project_chat.Common.KeySet.{contains, contains-erase}
use project_chat.Common.Map
use project_chat.Common.Map.{Map, find, assign, has}
use project_chat.Storage.PreparedStatementCache.{Entry, back, pop_back}

abbrev pub Distinct : List String → Type 0
Distinct [] = Unit
Distinct (n ∷ ns) = (contains n ns ≡ false) × Distinct ns

-- The step to a longer list: `b` says that the last name is the one that is looked for.
front_step :
    (a p q b : Bool) → p ≡ (not b && q) → (b ≡ true → a ≡ false) → (a || p) ≡ (not b && (a || q))
front_step true p q true e h = absurd (let no : true ≡ false = h refl in cc)
front_step true p q false e h = refl
front_step false p q b e h = e

pub contains-back : (n : String) (ns : List String) → contains (back n ns) (n ∷ ns) ≡ true
unfolding back contains
contains-back n [] = ground (arith, text_iff n n)
contains-back n (m ∷ ns) = ground (arith, contains-back m ns)

back_only :
    (n m j : String) (ns : List String)
    → contains n (m ∷ ns) ≡ false
    → (back m ns == j) ≡ true
    → (n == j) ≡ false
back_only n m j ns d h =
    let same : back m ns ≡ j = eq_sound (back m ns) j h in
    let found : contains j (m ∷ ns) ≡ true = rw (← same) (contains-back m ns) in
    elim (Bool-cases (n == j)) [
      | inl e ↦ absurd (
          let same' : n ≡ j = eq_sound n j e in
          let found' : contains n (m ∷ ns) ≡ true = rw (same') found in cc)
      | inr e ↦ e
    ]

pub contains-pop_back :
    (j n : String) (ns : List String)
    → Distinct (n ∷ ns)
    → contains j (pop_back n ns) ≡ (not (back n ns == j) && contains j (n ∷ ns))
unfolding pop_back back contains
contains-pop_back j n [] d = ground (arith, text_iff n j)
contains-pop_back j n (m ∷ ns) d =
    front_step (n == j) (contains j (pop_back m ns)) (contains j (m ∷ ns)) (back m ns == j)
      (contains-pop_back j m ns d.1) (back_only n m j ns d.0)

pub Distinct-pop_back :
    (n : String) (ns : List String) → Distinct (n ∷ ns) → Distinct (pop_back n ns)
unfolding pop_back
Distinct-pop_back n [] d = tt
Distinct-pop_back n (m ∷ ns) d =
    (contains-pop_back n m ns d.1 ∙ ground (arith, d.0), Distinct-pop_back m ns d.1)

pub Distinct-erase : (n : String) (ns : List String) → Distinct ns → Distinct (KeySet.erase n ns)
unfolding KeySet.erase
Distinct-erase n [] d = tt
Distinct-erase n (m ∷ ns) d =
    if-cases Distinct (m == n) (λ _. Distinct-erase n ns d.1)
      (λ _. (contains-erase n m ns ∙ ground (arith, d.0), Distinct-erase n ns d.1))

module _ {S : Type 0} where
  pub length-erase : (n : String) (m : Map String (Entry S)) → length (Map.erase n m) ≤ length m
  unfolding Map.erase
  length-erase n [] = omega arith
  length-erase n ((k, e) ∷ m) = ground (arith, length-erase n m)

  pub length-erase_found :
      (n : String) (m : Map String (Entry S)) → has n m ≡ true → length (Map.erase n m) < length m
  unfolding Map.erase find
  length-erase_found n [] h = cc
  length-erase_found n ((k, e) ∷ m) h = ground (arith, length-erase n m, length-erase_found n m)

  pub length-assign :
      (n : String) (e : Entry S) (m : Map String (Entry S)) → length (assign n e m) ≤ length m + 1
  unfolding assign
  length-assign n e [] = omega arith
  length-assign n e ((k, w) ∷ m) = ground (arith, length-assign n e m)
