-- ===== src/Auth/AuthService/Strength.antt =====
-- Which passwords are strong enough.
use project_chat.Common.{
  ℕ, ◌≡◌, refl, Bool, false, not, ◌&&◌, ◌||◌, inl, inr, List, [], ◌∷◌, arith, leb, length,
  Bool-cases,
}
use project_chat.Auth.AuthService.{
  is_upper, is_lower, is_digit, has_all, validate_password_strength,
}

abbrev pub any : (ℕ → Bool) → List ℕ → Bool
any test [] = false
any test (c ∷ cs) = test c || any test cs

has_all_lem :
    (upper lower digit : Bool) (cs : List ℕ)
    → (upper && (lower && digit)) ≡ false
    → has_all upper lower digit cs
      ≡ ((upper || any is_upper cs) && ((lower || any is_lower cs) && (digit || any is_digit cs)))
unfolding has_all
has_all_lem upper lower digit [] h = ground (arith, h)
has_all_lem upper lower digit (c ∷ cs) h =
    let upper' = upper || is_upper c in
    let lower' = lower || (not (is_upper c) && is_lower c) in
    let digit' = digit || (not (is_upper c) && (not (is_lower c) && is_digit c)) in
    elim (Bool-cases (upper' && (lower' && digit'))) [
      | inl all ↦ ground (arith, all)
      | inr some ↦ ground (arith, some, has_all_lem upper' lower' digit' cs some)
    ]

-- The loop over a password accepts exactly those of 8 to 32 bytes with an upper-case letter, a
-- lower-case letter and a digit in any order.
pub validate_password_strength_lem :
    (password : List ℕ)
    → validate_password_strength password ≡ (
        (leb 8 (length password) && leb (length password) 32)
        && (any is_upper password && (any is_lower password && any is_digit password)))
unfolding validate_password_strength
validate_password_strength_lem password =
    ground (arith, has_all_lem false false false password refl)
