-- ===== src/Net/Frame/Decoding/Ends.antt =====
-- How the loop over the frames in a buffer ends.
use project_chat.Common.{
  ℕ, zero, suc, ◌+◌, ◌^◌, ◌≤◌, ◌<◌, ◌≡◌, ◌≢◌, refl, ◌∙◌, sym, ap, List, [], ◌∷◌, ◌++◌, map, arith,
  length, some, inl, inr, ◌⊎◌, Bool-cases, Option-cases, ltb, ltb_of_le, le_of_ltb, length-drop,
  drop,
}
use mathlib.Core.Path.{subst}
use mathlib.Core.List.{append_assoc}
use project_chat.Net.Buffer.{Buffer, readable_bytes, uint32_bytes, bytes_uint32}
use project_chat.Net.Buffer.Contents.{IsValid, contents, length-contents, bytes_uint32-uint32_bytes}
use project_chat.Net.Frame.{
  Event, handle_control_frame, Round, wait, close, frame, exhausted, closed, rounds, buffer_round,
  parse_frames,
}
use project_chat.Net.Frame.Decoding.{
  encode, encode_all, byte_round, Refines, both_wait, both_close, both_frame, round-Refines,
  round-encode, length-encode, byte_frame,
}
use project_chat.Net.Frame.Stream.{AllFit, round_frame}

-- A frame takes four bytes at least.
frame_shrinks :
    (m len : ℕ) (xs ys : List ℕ) (e : Event)
    → 4 ≤ length xs
    → byte_frame m xs len ≡ frame e ys
    → length ys + 4 ≤ length xs
unfolding byte_frame
frame_shrinks m len xs ys e long h =
    ground (arith, length-drop 4 xs, length-drop len (drop 4 xs), h, long)

round_shrinks :
    (m : ℕ) (xs ys : List ℕ) (e : Event) → byte_round m xs ≡ frame e ys → length ys + 4 ≤ length xs
unfolding byte_round
round_shrinks m xs ys e h = elim (Bool-cases (ltb (length xs) 4)) [
  | inl few ↦ ground (arith, few, h)
  | inr four ↦ elim (Option-cases (bytes_uint32 xs)) [
    | inl missing ↦ ground (arith, four, missing, h)
    | inr (len, s) ↦ frame_shrinks m len xs ys e (le_of_ltb _ _ four) (sym (rw (four, s) refl) ∙ h)
  ]
]

oversize_of :
    (m len : ℕ) (xs : List ℕ)
    → 4 ≤ length xs
    → bytes_uint32 xs ≡ some len
    → m < len
    → byte_round m xs ≡ close
unfolding byte_round byte_frame
oversize_of m len xs long e big = rw (ltb_of_le (length xs) 4 long, e) (ground (arith, big))

-- A length above the limit closes the connection.
round_oversize :
    (m len : ℕ) (xs : List ℕ)
    → m < len
    → len < 2 ^ 32
    → byte_round m (uint32_bytes len ++ xs) ≡ close
round_oversize m len xs big wide =
    oversize_of m len (uint32_bytes len ++ xs) (omega arith) (bytes_uint32-uint32_bytes len xs wide)
      big

Round-cases :
    {S : Type 0} (r : Round S)
    → (r ≡ wait) ⊎ ((r ≡ close) ⊎ ((e : Event) × ((s : S) × (r ≡ frame e s))))
Round-cases wait = inl refl
Round-cases close = inr (inl refl)
Round-cases (frame e s) = inr (inr (e, (s, refl)))

refined :
    (e : Event) (c : Buffer) (r : Round Buffer) (q : Round (List ℕ))
    → Refines r q
    → r ≡ frame e c
    → (xs : List ℕ) × (q ≡ frame e xs) × IsValid c × (contents c ≡ xs)
refined e c wait q both_wait h = cc
refined e c close q both_close h = cc
refined e c (frame f d) q (both_frame _ _ ys w s) h =
    let same : d ≡ c = cc in (ys, cc, subst IsValid same w, ap contents (sym same) ∙ s)

module _ (m : ℕ) (small : m + 4 < 2 ^ 32) where
  round_close :
      (b : Buffer) → IsValid b → byte_round m (contents b) ≡ close → buffer_round m b ≡ close
  round_close b v e =
      go (buffer_round m b) (byte_round m (contents b)) (round-Refines m b small v) e
    where
      go : (r : Round Buffer) (q : Round (List ℕ)) → Refines r q → q ≡ close → r ≡ close
      go wait q both_wait h = cc
      go close q both_close h = refl
      go (frame f c) q (both_frame _ _ _ _ _) h = cc

  closes :
      (fuel len : ℕ) (ps : List (List ℕ)) (b : Buffer) (rest : List ℕ)
      → IsValid b
      → AllFit m ps
      → m < len
      → len < 2 ^ 32
      → contents b ≡ encode_all ps ++ (uint32_bytes len ++ rest)
      → readable_bytes b < fuel
      → ((rounds (buffer_round m) fuel b).events ≡ map handle_control_frame ps)
        × ((rounds (buffer_round m) fuel b).status ≡ closed)
  unfolding rounds encode_all
  closes zero len ps b rest v fit big wide e h = absurd (omega arith)
  closes (suc fuel) len [] b rest v fit big wide e h =
      rw (round_close b v (ap (byte_round m) e ∙ round_oversize m len rest big wide), rounds)
        (refl, refl)
  closes (suc fuel) len (p ∷ ps) b rest v fit big wide e h =
      let tail : List ℕ = encode_all ps ++ (uint32_bytes len ++ rest) in
      let begins : contents b ≡ encode p ++ tail =
        e ∙ append_assoc (encode p) (encode_all ps) (uint32_bytes len ++ rest) in
      let (c, step, w, same) =
        round_frame m small b (handle_control_frame p) tail v
          (ap (byte_round m) begins ∙ round-encode m p small fit.0 tail) in
      let less : readable_bytes c < fuel = omega (
        arith,
        length-contents b v,
        length-contents c w,
        ap length begins,
        length-encode p tail,
        ap length same,
      ) in
      let (events, status) = closes fuel len ps c rest w fit.1 big wide same less in
      rw (step, rounds) (ap (◌∷◌ (handle_control_frame p)) events, status)

  -- When the contents of a valid buffer are whole frames within the limit, then a length above
  -- the limit and any bytes, the loop over the frames hands over these frames and comes to the
  -- close of the connection; the limit leaves room for the length of a frame in 32 bits.
  pub parse_frames_oversize :
      (len : ℕ) (ps : List (List ℕ)) (b : Buffer) (rest : List ℕ)
      → IsValid b
      → AllFit m ps
      → m < len
      → len < 2 ^ 32
      → contents b ≡ encode_all ps ++ (uint32_bytes len ++ rest)
      → ((parse_frames m b).events ≡ map handle_control_frame ps)
        × ((parse_frames m b).status ≡ closed)
  unfolding parse_frames
  parse_frames_oversize len ps b rest v fit big wide e =
      closes (suc (readable_bytes b)) len ps b rest v fit big wide e (omega arith)

  ends :
      (fuel : ℕ) (b : Buffer)
      → IsValid b
      → readable_bytes b < fuel
      → (rounds (buffer_round m) fuel b).status ≢ exhausted
  unfolding rounds
  ends zero b v h = absurd (omega arith)
  ends (suc fuel) b v h = elim (Round-cases (buffer_round m b)) [
    | inl waits ↦ rw (waits, rounds) (λ k. ground (arith, k))
    | inr (inl ends_here) ↦ rw (ends_here, rounds) (λ k. ground (arith, k))
    | inr (inr (e, (c, step))) ↦
        let (xs, bytes, w, same) =
          refined e c (buffer_round m b) (byte_round m (contents b)) (round-Refines m b small v)
            step in
        let less : readable_bytes c < fuel = omega (
          arith,
          length-contents b v,
          length-contents c w,
          ap length same,
          round_shrinks m (contents b) xs e bytes,
        ) in
        rw (step, rounds) (ends fuel c w less)
  ]

  -- The loop over the frames in a valid buffer ends, whatever the bytes: it waits for more bytes
  -- or closes the connection before its fuel is used up; the limit leaves room for the length of
  -- a frame in 32 bits.
  pub parse_frames_ends : (b : Buffer) → IsValid b → (parse_frames m b).status ≢ exhausted
  unfolding parse_frames
  parse_frames_ends b v = ends (suc (readable_bytes b)) b v (omega arith)
