-- ===== src/Timer/TimerQueue/Order.antt =====
-- The order of the entries, and the first of them.
use project_chat.Common.{
  ℕ, ◌≤◌, ◌≡◌, refl, false, ◌&&◌, ◌||◌, some, List, [], ◌∷◌, arith, eqb, ltb, leb, eqb_iff,
  if◌then◌else◌, nat_key, Bool-cases, inl, inr,
}
use project_chat.Timer.TimerQueue.{
  Entry, insert_entry, erase_entry, same_entry, first_expiration, earlier, is_first, less_expired,
}

abbrev pub NoneBefore : ℕ → List Entry → Type 0
NoneBefore e [] = Unit
NoneBefore e ((e', s) ∷ es) = (e ≤ e') × NoneBefore e es

abbrev pub Ordered : List Entry → Type 0
Ordered [] = Unit
Ordered ((e, s) ∷ es) = NoneBefore e es × Ordered es

pub NoneBefore-trans : (d e : ℕ) (es : List Entry) → d ≤ e → NoneBefore e es → NoneBefore d es
NoneBefore-trans d e [] h k = tt
NoneBefore-trans d e ((e', s) ∷ es) h k = (omega (arith, h, k.0), NoneBefore-trans d e es h k.1)

insert_entry-NoneBefore :
    (d e s : ℕ) (es : List Entry) → d ≤ e → NoneBefore d es → NoneBefore d (insert_entry (e, s) es)
unfolding insert_entry
insert_entry-NoneBefore d e s [] h k = (h, tt)
insert_entry-NoneBefore d e s ((e', s') ∷ es) h k =
    elim (Bool-cases (ltb e e' || (eqb e e' && ltb s s'))) [
      | inl front ↦ rw front (h, k)
      | inr behind ↦ rw behind (elim (Bool-cases (same_entry (e, s) (e', s'))) [
        | inl same ↦ rw same k
        | inr other ↦ rw other (k.0, insert_entry-NoneBefore d e s es h k.1)
      ])
    ]

pub insert_entry-Ordered :
    (e s : ℕ) (es : List Entry) → Ordered es → Ordered (insert_entry (e, s) es)
unfolding insert_entry
insert_entry-Ordered e s [] o = (tt, tt)
insert_entry-Ordered e s ((e', s') ∷ es) o =
    elim (Bool-cases (ltb e e' || (eqb e e' && ltb s s'))) [
      | inl front ↦
          let le : e ≤ e' = ground (arith, front) in
          rw front ((le, NoneBefore-trans e e' es le o.0), o)
      | inr behind ↦ rw behind (elim (Bool-cases (same_entry (e, s) (e', s'))) [
        | inl same ↦ rw same o
        | inr other ↦ rw other (
          insert_entry-NoneBefore e' e s es (ground (arith, behind)) o.0,
          insert_entry-Ordered e s es o.1,
        )
      ])
    ]

erase_entry-NoneBefore :
    (d : ℕ) (x : Entry) (es : List Entry) → NoneBefore d es → NoneBefore d (erase_entry x es)
unfolding erase_entry
erase_entry-NoneBefore d x [] k = tt
erase_entry-NoneBefore d x (y ∷ es) k = elim (Bool-cases (same_entry x y)) [
  | inl same ↦ rw same (erase_entry-NoneBefore d x es k.1)
  | inr other ↦ rw other (k.0, erase_entry-NoneBefore d x es k.1)
]

pub erase_entry-Ordered : (x : Entry) (es : List Entry) → Ordered es → Ordered (erase_entry x es)
unfolding erase_entry
erase_entry-Ordered x [] o = tt
erase_entry-Ordered x (y ∷ es) o = elim (Bool-cases (same_entry x y)) [
  | inl same ↦ rw same (erase_entry-Ordered x es o.1)
  | inr other ↦ rw other (erase_entry-NoneBefore y.0 x es o.0, erase_entry-Ordered x es o.1)
]

pub less_expired-Ordered : (now : ℕ) (es : List Entry) → Ordered es → Ordered (less_expired now es)
unfolding less_expired
less_expired-Ordered now [] o = tt
less_expired-Ordered now ((e, s) ∷ es) o = elim (Bool-cases (leb e now)) [
  | inl due ↦ rw due (less_expired-Ordered now es o.1)
  | inr later ↦ rw later o
]

pub first_expiration-insert_entry :
    (e s : ℕ) (es : List Entry)
    → first_expiration (insert_entry (e, s) es)
      ≡ (if earlier e es then some e else first_expiration es)
unfolding first_expiration insert_entry earlier
first_expiration-insert_entry e s [] = refl
first_expiration-insert_entry e s ((e', s') ∷ es) = ground (arith, eqb_iff e e')

pub first_expiration-erase_entry :
    (e s : ℕ) (es : List Entry)
    → is_first s es ≡ false
    → first_expiration (erase_entry (e, s) es) ≡ first_expiration es
unfolding first_expiration erase_entry is_first
first_expiration-erase_entry e s [] h = refl
first_expiration-erase_entry e s ((e', s') ∷ es) h = ground (arith, h)
