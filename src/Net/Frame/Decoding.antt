-- ===== src/Net/Frame/Decoding.antt =====
-- The frames of a plain list of bytes, which the loop over the buffer refines.
pub mod Ends
use native.Mathlib.Nat.{mod-eq_of_lt}
use project_chat.Common.{
  ℕ, ◌+◌, ◌^◌, ◌≤◌, ◌<◌, ◌≡◌, refl, ◌∙◌, sym, ap, List, [], ◌∷◌, ◌++◌, none, some, false, Option,
  le_of_ltb, ltb_of_le, lt→ltb, take-append, take_all, drop_one, ap₂, length, take, drop, ltb, eqb,
  if◌then◌else◌, arith, inl, inr, Bool-cases, length-append, length-drop,
}
use project_chat.Net.Buffer.{
  Buffer, readable_bytes, retrieve_uint32, retrieve_as_string, bytes_uint32, uint32_bytes,
}
use project_chat.Net.Buffer.Contents.{
  IsValid, contents, length-contents, retrieve_as_string_lem, peek_uint32-contents,
  bytes_uint32-uint32_bytes, retrieve_uint32-IsValid, contents-retrieve_uint32,
}
use project_chat.Net.Frame.{
  Event, message, handle_control_frame, Round, wait, close, frame, frame_round, buffer_round,
}

-- One frame as it is sent: its length, then its bytes.
unfoldable pub encode : List ℕ → List ℕ
encode p = uint32_bytes (length p) ++ p

unfoldable pub encode_all : List (List ℕ) → List ℕ
encode_all [] = []
encode_all (p ∷ ps) = encode p ++ encode_all ps

byte_frame : ℕ → List ℕ → ℕ → Round (List ℕ)
byte_frame m xs len =
    if eqb len 0
    then frame (message []) (drop 4 xs)
    else if ltb m len
    then close
    else if ltb (length xs) (4 + len)
    then wait
    else frame (handle_control_frame (take len (drop 4 xs))) (drop len (drop 4 xs))

pub byte_round : ℕ → List ℕ → Round (List ℕ)
byte_round m xs =
    if ltb (length xs) 4
    then wait
    else elim (bytes_uint32 xs) [ none ↦ wait | some len ↦ byte_frame m xs len ]

pub round-nil : (m : ℕ) → byte_round m [] ≡ wait
unfolding byte_round
round-nil m = refl

-- The same event, and states that stand for the same bytes.
pub data Refines : Round Buffer → Round (List ℕ) → Type 0 where
  both_wait : Refines wait wait
  both_close : Refines close close
  both_frame :
      (e : Event) (b : Buffer) (xs : List ℕ)
      → IsValid b
      → contents b ≡ xs
      → Refines (frame e b) (frame e xs)

payload-Refines :
    (m : ℕ) (b : Buffer) (len : ℕ)
    → IsValid b
    → 4 + len ≤ readable_bytes b
    → Refines
        (let (payload, rest) = retrieve_as_string (retrieve_uint32 b) len in
          frame (handle_control_frame payload) rest)
        (frame
          (handle_control_frame (take len (drop 4 (contents b))))
          (drop len (drop 4 (contents b))))
payload-Refines m b len v h =
    let v4 = retrieve_uint32-IsValid b v in
    let c4 = contents-retrieve_uint32 b v in
    let fits : len ≤ readable_bytes (retrieve_uint32 b) = omega (
      arith,
      length-contents (retrieve_uint32 b) v4,
      length-contents b v,
      ap length c4,
      length-drop 4 (contents b),
    ) in
    let (read, left, valid) = retrieve_as_string_lem (retrieve_uint32 b) len v4 fits in
    rw (read, c4) (both_frame _ _ _ valid (left ∙ ap (drop len) c4))

frame-Refines :
    (m : ℕ) (b : Buffer) (len : ℕ)
    → m + 4 < 2 ^ 32
    → IsValid b
    → 4 ≤ readable_bytes b
    → Refines (frame_round m b len) (byte_frame m (contents b) len)
unfolding frame_round byte_frame
frame-Refines m b len small v h = elim (Bool-cases (eqb len 0)) [
  | inl none_left ↦
      rw none_left
        (both_frame (message []) _ _ (retrieve_uint32-IsValid b v) (contents-retrieve_uint32 b v))
  | inr some_left ↦ rw some_left (elim (Bool-cases (ltb m len)) [
    | inl large ↦ rw large both_close
    | inr fine ↦
        rw (fine, length-contents b v, mod-eq_of_lt {n = 4 + len} {m = 2 ^ 32} (ground arith))
          (elim (Bool-cases (ltb (readable_bytes b) (4 + len))) [
            | inl short ↦ rw short both_wait
            | inr whole ↦ rw whole (payload-Refines m b len v (ground arith))
          ])
  ])
]

-- One round of the loop over the buffer is a round over its contents.
pub round-Refines :
    (m : ℕ) (b : Buffer)
    → m + 4 < 2 ^ 32
    → IsValid b
    → Refines (buffer_round m b) (byte_round m (contents b))
unfolding buffer_round byte_round
round-Refines m b small v = rw (length-contents b v) (elim (Bool-cases (ltb (readable_bytes b) 4)) [
  | inl few ↦ rw few both_wait
  | inr four ↦
      rw (four, peek_uint32-contents b v (le_of_ltb _ _ four))
        (found (bytes_uint32 (contents b)) (le_of_ltb _ _ four))
])
  where
    found :
        (o : Option ℕ)
        → 4 ≤ readable_bytes b
        → Refines
            (elim o [ none ↦ wait | some len ↦ frame_round m b len ])
            (elim o [ none ↦ wait | some len ↦ byte_frame m (contents b) len ])
    found none h = both_wait
    found (some len) h = frame-Refines m b len small v h

bytes_uint32-append : (xs ys : List ℕ) → 4 ≤ length xs → bytes_uint32 (xs ++ ys) ≡ bytes_uint32 xs
bytes_uint32-append (a ∷ b ∷ c ∷ d ∷ xs) ys h = refl
bytes_uint32-append [] ys h = absurd (omega arith)
bytes_uint32-append (a ∷ []) ys h = absurd (omega arith)
bytes_uint32-append (a ∷ b ∷ []) ys h = absurd (omega arith)
bytes_uint32-append (a ∷ b ∷ c ∷ []) ys h = absurd (omega arith)

bytes_uint32-encode :
    (p ys : List ℕ) → length p < 2 ^ 32 → bytes_uint32 (encode p ++ ys) ≡ some (length p)
unfolding encode
bytes_uint32-encode p ys h = bytes_uint32-uint32_bytes (length p) (p ++ ys) h

handle_control_frame-nil : handle_control_frame [] ≡ message []
unfolding handle_control_frame
handle_control_frame-nil = refl

pub length-encode : (p ys : List ℕ) → length (encode p ++ ys) ≡ 4 + length p + length ys
unfolding encode
length-encode p ys = omega (arith, length-append p ys)

drop-encode : (p ys : List ℕ) → drop 4 (encode p ++ ys) ≡ p ++ ys
unfolding encode
drop-encode p ys = refl

eqb_of_pos : (n : ℕ) → 0 < n → eqb n 0 ≡ false
eqb_of_pos n h = ground arith

-- A list that begins like another, and is no shorter than its first part.
pub split_prefix :
    (xs zs us ws : List ℕ)
    → xs ++ zs ≡ us ++ ws
    → length us ≤ length xs
    → (ys : List ℕ) × (xs ≡ us ++ ys) × (ys ++ zs ≡ ws)
split_prefix xs zs [] ws e h = (xs, refl, e)
split_prefix [] zs (u ∷ us) ws e h = absurd (omega arith)
split_prefix (x ∷ xs) zs (u ∷ us) ws e h =
    let head : x ≡ u = cc in
    let (ys, begins, ends) = split_prefix xs zs us ws (cc) (omega arith) in
    (ys, ap₂ ◌∷◌ head begins, ends)

byte_frame-append :
    (m : ℕ) (p xs ys : List ℕ)
    → length p ≤ m
    → length xs ≡ 4 + length p + length ys
    → drop 4 xs ≡ p ++ ys
    → byte_frame m xs (length p) ≡ frame (handle_control_frame p) ys
unfolding byte_frame
byte_frame-append m [] xs ys fits l e = rw (e, handle_control_frame-nil)
byte_frame-append m (x ∷ p) xs ys fits l e = rw (
  eqb_of_pos (length (x ∷ p)) (omega arith),
  ltb_of_le m (length (x ∷ p)) fits,
  ltb_of_le (length xs) (4 + length (x ∷ p)) (omega arith),
  e,
  take-append (length (x ∷ p)) (x ∷ p) ys (omega arith),
  take_all (length (x ∷ p)) (x ∷ p) (omega arith),
  drop_one (length (x ∷ p)) (x ∷ p) ys refl,
)

module _ (m : ℕ) (p : List ℕ) (small : m + 4 < 2 ^ 32) (fits : length p ≤ m) where
  -- Behind a whole frame the round hands its payload over.
  pub round-encode :
      (ys : List ℕ) → byte_round m (encode p ++ ys) ≡ frame (handle_control_frame p) ys
  unfolding byte_round
  round-encode ys =
      rw
        (
          ltb_of_le (length (encode p ++ ys)) 4 (omega (arith, length-encode p ys)),
          bytes_uint32-encode p ys (omega arith),
        )
        (byte_frame-append m p (encode p ++ ys) ys fits (length-encode p ys) (drop-encode p ys))

  -- In the midst of a frame the round waits.
  pub round_partial :
      (xs zs ws : List ℕ)
      → xs ++ zs ≡ encode p ++ ws
      → length xs < 4 + length p
      → byte_round m xs ≡ wait
  unfolding byte_round byte_frame
  round_partial xs zs ws e h = elim (Bool-cases (ltb (length xs) 4)) [
    | inl few ↦ rw few
    | inr four ↦ rw (
      four,
      sym (bytes_uint32-append xs zs (le_of_ltb _ _ four))
          ∙ ap bytes_uint32 e
          ∙ bytes_uint32-encode p ws (omega arith),
      eqb_of_pos (length p) (omega (arith, le_of_ltb _ _ four)),
      ltb_of_le m (length p) fits,
      lt→ltb (length xs) (4 + length p) h,
    )
  ]
