-- ===== src/Net/Frame/Stream.antt =====
-- What `handleRead` delivers from a stream of frames, however the stream is cut into reads.
use mathlib.Core.Path.{subst}
use project_chat.Common.{
  ℕ, zero, suc, ◌+◌, ◌^◌, ◌≤◌, ◌<◌, ◌≡◌, refl, ◌∙◌, sym, ap, ap₂, List, [], ◌∷◌, ◌++◌, map, arith,
  length, inl, inr, Bool-cases, ltb, le_of_ltb, ltb→lt,
}
use mathlib.Core.List.{flatten, append-nil, append_assoc, map-append}
use project_chat.Net.Buffer.{Buffer, readable_bytes, read_fd}
use project_chat.Net.Buffer.Contents.{IsValid, contents, length-contents}
use project_chat.Net.Buffer.Room.{read_fd_lem}
use project_chat.Net.Frame.{
  Event, handle_control_frame, Round, wait, close, frame, Parsed, waiting, rounds, buffer_round,
  parse_frames, after_parse, received, handle_read,
}
use project_chat.Net.Frame.Decoding.{
  encode, encode_all, byte_round, Refines, both_wait, both_close, both_frame, round-Refines,
  round-encode, round_partial, split_prefix, length-encode, round-nil,
}

-- Every payload is within the limit.
abbrev pub AllFit : ℕ → List (List ℕ) → Type 0
AllFit m [] = Unit
AllFit m (p ∷ ps) = (length p ≤ m) × AllFit m ps

-- The frames `handed` have been handed over; the bytes kept and those still to come, `zs`, are
-- the frames `left`; and no whole frame is kept.
pub record Drained (m : ℕ) (p : Parsed Buffer) (zs : List ℕ) (ps : List (List ℕ)) : Type 0 where
  pub handed : List (List ℕ)
  pub left : List (List ℕ)
  pub split : handed ++ left ≡ ps
  pub events : p.events ≡ map handle_control_frame handed
  pub waits : p.status ≡ waiting
  pub valid : IsValid p.rest
  pub kept : contents p.rest ++ zs ≡ encode_all left
  pub quiet : byte_round m (contents p.rest) ≡ wait
  pub fit : AllFit m left

nil_of_append : (xs ys : List ℕ) → xs ++ ys ≡ [] → xs ≡ []
nil_of_append [] ys h = refl
nil_of_append (x ∷ xs) ys h = cc

length-encode_self : (p : List ℕ) → length (encode p) ≡ 4 + length p
unfolding encode
length-encode_self p = omega arith

-- No read is empty, which would end the stream.
abbrev pub IsFull : List ℕ → Type 0
IsFull [] = ⊥
IsFull (x ∷ xs) = Unit

abbrev pub AllFull : List (List ℕ) → Type 0
AllFull [] = Unit
AllFull (c ∷ cs) = IsFull c × AllFull cs

module _ (m : ℕ) (small : m + 4 < 2 ^ 32) where
  pub round_wait :
      (b : Buffer) → IsValid b → byte_round m (contents b) ≡ wait → buffer_round m b ≡ wait
  round_wait b v e = go (buffer_round m b) (byte_round m (contents b)) (round-Refines m b small v) e
    where
      go : (r : Round Buffer) (q : Round (List ℕ)) → Refines r q → q ≡ wait → r ≡ wait
      go wait q both_wait h = refl
      go close q both_close h = cc
      go (frame f c) q (both_frame _ _ _ _ _) h = cc

  pub round_frame :
      (b : Buffer) (e : Event) (xs : List ℕ)
      → IsValid b
      → byte_round m (contents b) ≡ frame e xs
      → (c : Buffer) × (buffer_round m b ≡ frame e c) × IsValid c × (contents c ≡ xs)
  round_frame b e xs v h =
      go (buffer_round m b) (byte_round m (contents b)) (round-Refines m b small v) h
    where
      go :
          (r : Round Buffer) (q : Round (List ℕ))
          → Refines r q
          → q ≡ frame e xs
          → (c : Buffer) × (r ≡ frame e c) × IsValid c × (contents c ≡ xs)
      go wait q both_wait k = cc
      go close q both_close k = cc
      go (frame f c) q (both_frame _ _ ys w s) k = (c, cc, w, s ∙ cc)

  stops :
      (fuel : ℕ) (b : Buffer) (zs : List ℕ) (ps : List (List ℕ))
      → IsValid b
      → contents b ++ zs ≡ encode_all ps
      → byte_round m (contents b) ≡ wait
      → AllFit m ps
      → Drained m (rounds (buffer_round m) (suc fuel) b) zs ps
  unfolding rounds
  stops fuel b zs ps v e h fit =
      rw (round_wait b v h, rounds)
        (record {
          handed = [];
          left = ps;
          split = refl;
          events = refl;
          waits = refl;
          valid = v;
          kept = e;
          quiet = h;
          fit = fit;
        })

  goes_on :
      (fuel : ℕ) (p : List ℕ) (ps : List (List ℕ)) (b c : Buffer) (zs : List ℕ)
      → buffer_round m b ≡ frame (handle_control_frame p) c
      → Drained m (rounds (buffer_round m) fuel c) zs ps
      → Drained m (rounds (buffer_round m) (suc fuel) b) zs (p ∷ ps)
  unfolding rounds
  goes_on fuel p ps b c zs step d =
      rw (step, rounds)
        (record {
          handed = p ∷ d.handed;
          left = d.left;
          split = ap (◌∷◌ p) d.split;
          events = ap (◌∷◌ (handle_control_frame p)) d.events;
          waits = d.waits;
          valid = d.valid;
          kept = d.kept;
          quiet = d.quiet;
          fit = d.fit;
        })

  -- The inner loop on the bytes that have come of a stream of frames.
  rounds-Drained :
      (fuel : ℕ) (ps : List (List ℕ)) (b : Buffer) (zs : List ℕ)
      → IsValid b
      → AllFit m ps
      → contents b ++ zs ≡ encode_all ps
      → readable_bytes b < fuel
      → Drained m (rounds (buffer_round m) fuel b) zs ps
  unfolding encode_all
  rounds-Drained zero ps b zs v fit e h = absurd (omega arith)
  rounds-Drained (suc fuel) [] b zs v fit e h =
      stops fuel b zs [] v e (rw (nil_of_append (contents b) zs e) (round-nil m)) fit
  rounds-Drained (suc fuel) (p ∷ ps) b zs v fit e h =
      elim (Bool-cases (ltb (length (contents b)) (4 + length p))) [
        | inl partial ↦
            stops fuel b zs (p ∷ ps) v e
              (round_partial m p small fit.0 (contents b) zs (encode_all ps) e (ltb→lt _ _ partial))
              fit
        | inr whole ↦
            let long : length (encode p) ≤ length (contents b) =
              omega (arith, length-encode_self p, le_of_ltb _ _ whole) in
            let (ys, begins, ends) =
              split_prefix (contents b) zs (encode p) (encode_all ps) e long in
            let (c, step, w, same) =
              round_frame b (handle_control_frame p) ys v
                (ap (byte_round m) begins ∙ round-encode m p small fit.0 ys) in
            let less : readable_bytes c < fuel = omega (
              arith,
              length-contents b v,
              length-contents c w,
              ap length begins,
              length-encode p ys,
              ap length same,
            ) in
            goes_on fuel p ps b c zs step (rounds-Drained fuel ps c zs w fit.1 (rw same ends) less)
      ]

  parse-Drained :
      (ps : List (List ℕ)) (b : Buffer) (zs : List ℕ)
      → IsValid b
      → AllFit m ps
      → contents b ++ zs ≡ encode_all ps
      → Drained m (parse_frames m b) zs ps
  unfolding parse_frames
  parse-Drained ps b zs v fit e =
      rounds-Drained (suc (readable_bytes b)) ps b zs v fit e (omega arith)

  after_parse-waiting :
      (p q : Parsed Buffer)
      → p.status ≡ waiting
      → after_parse p q ≡ record q { events = p.events ++ q.events }
  after_parse-waiting p q h = ground arith

  joined :
      (p q : Parsed Buffer) (zs : List ℕ) (ps : List (List ℕ)) (d : Drained m p zs ps)
      → Drained m q [] d.left
      → Drained m (after_parse p q) [] ps
  joined p q zs ps d r =
      subst (λ t. Drained m t [] ps) (sym (after_parse-waiting p q d.waits))
        (record {
          handed = d.handed ++ r.handed;
          left = r.left;
          split = append_assoc d.handed r.handed r.left ∙ ap (◌++◌ d.handed) r.split ∙ d.split;
          events =
              ap₂ ◌++◌ d.events r.events ∙ sym (map-append handle_control_frame d.handed r.handed);
          waits = r.waits;
          valid = r.valid;
          kept = r.kept;
          quiet = r.quiet;
          fit = r.fit;
        })

  -- `handleRead` on the reads `chunks` of a stream.
  reads-Drained :
      (chunks : List (List ℕ)) (ps : List (List ℕ)) (b : Buffer)
      → IsValid b
      → AllFit m ps
      → AllFull chunks
      → contents b ++ flatten chunks ≡ encode_all ps
      → byte_round m (contents b) ≡ wait
      → Drained m (handle_read m (map received chunks) b) [] ps
  unfolding handle_read flatten
  reads-Drained [] ps b v fit full e h = record {
    handed = [];
    left = ps;
    split = refl;
    events = refl;
    waits = refl;
    valid = v;
    kept = e;
    quiet = h;
    fit = fit;
  }
  reads-Drained ([] ∷ chunks) ps b v fit full e h = absurd full.0
  reads-Drained ((x ∷ xs) ∷ chunks) ps b v fit full e h =
      let (valid, bytes) = read_fd_lem b (x ∷ xs) v in
      let all : contents (read_fd b (x ∷ xs)) ++ flatten chunks ≡ encode_all ps =
        ap (λ ys. ys ++ flatten chunks) bytes
        ∙ append_assoc (contents b) (x ∷ xs) (flatten chunks)
        ∙ e in
      let d = parse-Drained ps (read_fd b (x ∷ xs)) (flatten chunks) valid fit all in
      joined (parse_frames m (read_fd b (x ∷ xs))) _ (flatten chunks) ps d
        (reads-Drained chunks d.left _ d.valid d.fit full.1 d.kept d.quiet)

  -- What is left of whole frames when all of the stream has come.
  none_left :
      (left : List (List ℕ)) (xs : List ℕ)
      → AllFit m left
      → xs ++ [] ≡ encode_all left
      → byte_round m xs ≡ wait
      → (left ≡ []) × (xs ≡ [])
  unfolding encode_all
  none_left [] xs fit e h = (refl, sym (append-nil xs) ∙ e)
  none_left (p ∷ ps) xs fit e h =
      cc (ap (byte_round m) (sym (append-nil xs) ∙ e), round-encode m p small fit.0 (encode_all ps))

-- Frames sent one after the other, in a stream that is cut into non-empty reads in any way, are
-- handed over each whole, in order and once, and nothing is left in the buffer. The buffer is
-- valid and holds less than one frame when the reads come, each frame keeps to the limit on a
-- frame, and that limit leaves room for its length in 32 bits.
pub handle_read-encode_all :
    (m : ℕ) (chunks : List (List ℕ)) (ps : List (List ℕ)) (b : Buffer)
    → m + 4 < 2 ^ 32
    → IsValid b
    → AllFit m ps
    → AllFull chunks
    → contents b ++ flatten chunks ≡ encode_all ps
    → byte_round m (contents b) ≡ wait
    → ((handle_read m (map received chunks) b).events ≡ map handle_control_frame ps)
      × ((handle_read m (map received chunks) b).status ≡ waiting)
      × (contents (handle_read m (map received chunks) b).rest ≡ [])
handle_read-encode_all m chunks ps b small v fit full e h =
    let d = reads-Drained m small chunks ps b v fit full e h in
    let (gone, clean) = none_left m small d.left _ d.fit d.kept d.quiet in
    (
      d.events
          ∙ ap (map handle_control_frame)
              (sym (append-nil d.handed) ∙ ap (◌++◌ d.handed) (sym gone) ∙ d.split),
      d.waits,
      clean,
    )
