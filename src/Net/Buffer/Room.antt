-- ===== src/Net/Buffer/Room.antt =====
-- Making room behind the contents (`ensureWritableBytes`) and writing there (`append`, `readFd`).
use mathlib.Core.List.{append_assoc}
use mathlib.Core.Path.{subst}
use project_chat.Common.{
  ℕ, ◌+◌, ◌-◌, ◌≤◌, ◌≡◌, refl, ◌∙◌, sym, ap, List, ◌++◌, arith, length, take, drop, length-append,
  length-take, length-drop, length-replicate, take-append-drop, take-append, drop-append, take_all,
  take_two, drop_one, Bool-cases, leb, inl, inr, replicate, true, leb→le,
}
use project_chat.Net.Buffer.Contents.{IsValid, contents, length-contents, peek_all}
use project_chat.Net.Buffer.{
  Buffer, cheap_prepend, readable_bytes, writeable_bytes, prependable_bytes, peek, overwrite,
  ensure_writable_bytes, has_written, copy_in, append, move_to_front, grow, uint32_bytes, read_fd,
  append_uint32,
}

length-overwrite :
    (d : List ℕ) (i : ℕ) (xs : List ℕ)
    → i + length xs ≤ length d
    → length (overwrite d i xs) ≡ length d
length-overwrite d i xs h = omega (
  arith,
  length-append (take i d) (xs ++ drop (i + length xs) d),
  length-append xs (drop (i + length xs) d),
  length-take i d,
  length-drop (i + length xs) d,
)

take-overwrite :
    (d : List ℕ) (i : ℕ) (xs : List ℕ)
    → i ≤ length d
    → take (i + length xs) (overwrite d i xs) ≡ take i d ++ xs
take-overwrite d i xs h =
    take_two (i + length xs) (take i d) xs (drop (i + length xs) d) (omega (arith, length-take i d))

-- Writing behind the contents, in the room that is there, extends them.
copied-IsValid :
    (b : Buffer) (xs : List ℕ)
    → IsValid b
    → length xs ≤ writeable_bytes b
    → IsValid (has_written (copy_in b xs) (length xs))
unfolding has_written copy_in
copied-IsValid b xs v h = omega (arith, length-overwrite b.bytes b.writer_index xs (omega arith))

contents_copied :
    (b : Buffer) (xs : List ℕ)
    → IsValid b
    → length xs ≤ writeable_bytes b
    → contents (has_written (copy_in b xs) (length xs)) ≡ contents b ++ xs
unfolding has_written copy_in
contents_copied b xs v h =
    ap (drop b.reader_index) (take-overwrite b.bytes b.writer_index xs (omega arith))
    ∙ drop-append b.reader_index (take b.writer_index b.bytes) xs
        (omega (arith, length-take b.writer_index b.bytes))

length-peek_all : (b : Buffer) → IsValid b → length (peek b (readable_bytes b)) ≡ readable_bytes b
length-peek_all b v = ap length (peek_all b v) ∙ length-contents b v

move_to_front-IsValid : (b : Buffer) → IsValid b → IsValid (move_to_front b)
unfolding move_to_front
move_to_front-IsValid b v = omega (
  arith,
  length-peek_all b v,
  length-overwrite b.bytes cheap_prepend (peek b (readable_bytes b))
      (omega (arith, length-peek_all b v)),
)

length-move_to_front : (b : Buffer) → IsValid b → length (move_to_front b).bytes ≡ length b.bytes
unfolding move_to_front
length-move_to_front b v =
    length-overwrite b.bytes cheap_prepend (peek b (readable_bytes b))
      (omega (arith, length-peek_all b v))

contents-move_to_front : (b : Buffer) → IsValid b → contents (move_to_front b) ≡ contents b
unfolding move_to_front
contents-move_to_front b v =
    let e : readable_bytes b ≡ length (peek b (readable_bytes b)) = sym (length-peek_all b v) in
    ap (λ n. drop 8 (take (8 + n) (overwrite b.bytes 8 (peek b (readable_bytes b))))) e
    ∙ ap (drop 8) (take-overwrite b.bytes 8 (peek b (readable_bytes b)) (omega arith))
    ∙ drop_one 8 (take 8 b.bytes) (peek b (readable_bytes b)) (omega (arith, length-take 8 b.bytes))
    ∙ peek_all b v

length-grow : (b : Buffer) (n : ℕ) → length (grow b n).bytes ≡ b.writer_index + n
unfolding grow
length-grow b n = omega (
  arith,
  length-append (take (b.writer_index + n) b.bytes)
      (replicate (b.writer_index + n - length b.bytes) 0),
  length-take (b.writer_index + n) b.bytes,
  length-replicate {A = ℕ} (b.writer_index + n - length b.bytes) 0,
)

contents-grow :
    (b : Buffer) (n : ℕ)
    → IsValid b
    → length b.bytes ≤ b.writer_index + n
    → contents (grow b n) ≡ contents b
unfolding grow
contents-grow b n v h = ap (drop b.reader_index) (
    ap (λ d. take b.writer_index (d ++ replicate (b.writer_index + n - length b.bytes) 0))
      (take_all (b.writer_index + n) b.bytes h)
    ∙ take-append b.writer_index b.bytes _ v.stored)

moved_room :
    (b : Buffer) (n : ℕ)
    → IsValid b
    → leb n (writeable_bytes b + prependable_bytes b - cheap_prepend) ≡ true
    → n ≤ writeable_bytes (move_to_front b)
unfolding move_to_front
moved_room b n v h = omega (arith, length-move_to_front b v, leb→le _ _ h)

grown_room : (b : Buffer) (n : ℕ) → n ≤ writeable_bytes (grow b n)
unfolding grow
grown_room b n = omega (arith, length-grow b n)

grow-IsValid : (b : Buffer) (n : ℕ) → IsValid b → IsValid (grow b n)
unfolding grow
grow-IsValid b n v = omega (arith, length-grow b n)

-- `ensureWritableBytes` makes the room, by moving the contents to the front or by growing the
-- storage, and keeps the contents.
pub record Ensured (b c : Buffer) (n : ℕ) : Type 0 where
  pub valid : IsValid c
  pub room : n ≤ writeable_bytes c
  pub same : contents c ≡ contents b

pub ensure_writable_bytes-Ensured :
    (b : Buffer) (n : ℕ) → IsValid b → Ensured b (ensure_writable_bytes b n) n
unfolding ensure_writable_bytes
ensure_writable_bytes-Ensured b n v = elim (Bool-cases (leb n (writeable_bytes b))) [
  | inl fits ↦ rw fits (record { valid = v; room = ground arith; same = refl })
  | inr short ↦
      rw short
        (elim (Bool-cases (leb n (writeable_bytes b + prependable_bytes b - cheap_prepend))) [
          | inl slack ↦ rw slack (record {
            valid = move_to_front-IsValid b v;
            room = moved_room b n v slack;
            same = contents-move_to_front b v;
          })
          | inr full ↦ rw full (record {
            valid = grow-IsValid b n v;
            room = grown_room b n;
            same = contents-grow b n v (ground arith);
          })
        ])
]

-- To append bytes to a valid buffer leaves it valid, with these bytes behind its contents,
-- whether the room is there, is made by moving the contents to the front, or by growing the
-- storage.
pub append_lem :
    (b : Buffer) (xs : List ℕ)
    → IsValid b
    → IsValid (append b xs) × (contents (append b xs) ≡ contents b ++ xs)
unfolding append
append_lem b xs v =
    let e = ensure_writable_bytes-Ensured b (length xs) v in
    (
      copied-IsValid (ensure_writable_bytes b (length xs)) xs e.valid e.room,
      contents_copied (ensure_writable_bytes b (length xs)) xs e.valid e.room
          ∙ ap (λ ys. ys ++ xs) e.same,
    )

read_over :
    (b : Buffer) (xs : List ℕ) (room : ℕ)
    → IsValid b
    → room ≡ writeable_bytes b
    → room ≤ length xs
    → IsValid (append (has_written (copy_in b (take room xs)) room) (drop room xs))
      × (contents (append (has_written (copy_in b (take room xs)) room) (drop room xs))
          ≡ contents b ++ xs)
read_over b xs room v e h =
    let l : room ≡ length (take room xs) = omega (arith, length-take room xs) in
    let filled : Buffer = has_written (copy_in b (take room xs)) room in
    let valid : IsValid filled =
      subst (λ n. IsValid (has_written (copy_in b (take room xs)) n)) (sym l)
        (copied-IsValid b (take room xs) v (omega arith)) in
    let same : contents filled ≡ contents b ++ take room xs =
      subst (λ n. contents (has_written (copy_in b (take room xs)) n) ≡ contents b ++ take room xs)
        (sym l) (contents_copied b (take room xs) v (omega arith)) in
    let (kept, added) = append_lem filled (drop room xs) valid in
    (
      kept,
      added
          ∙ ap (λ ys. ys ++ drop room xs) same
          ∙ append_assoc (contents b) (take room xs) (drop room xs)
          ∙ ap (◌++◌ (contents b)) (take-append-drop room xs),
    )

-- A read of any bytes into a valid buffer leaves it valid, with these bytes behind its contents,
-- whether they fit behind the write position or not.
pub read_fd_lem :
    (b : Buffer) (xs : List ℕ)
    → IsValid b
    → IsValid (read_fd b xs) × (contents (read_fd b xs) ≡ contents b ++ xs)
unfolding read_fd
read_fd_lem b xs v = elim (Bool-cases (leb (length xs) (writeable_bytes b))) [
  | inl fits ↦
      rw fits (copied-IsValid b xs v (leb→le _ _ fits), contents_copied b xs v (leb→le _ _ fits))
  | inr over ↦ rw over (read_over b xs (writeable_bytes b) v refl (ground arith))
]

pub append-IsValid : (b : Buffer) (xs : List ℕ) → IsValid b → IsValid (append b xs)
append-IsValid b xs v = (append_lem b xs v).0

pub readable_bytes-append :
    (b : Buffer) (xs : List ℕ)
    → IsValid b
    → readable_bytes (append b xs) ≡ readable_bytes b + length xs
readable_bytes-append b xs v =
    let (kept, added) = append_lem b xs v in
    omega (
      arith,
      length-contents b v,
      length-contents (append b xs) kept,
      ap length added,
      length-append (contents b) xs,
    )

-- A length is four bytes more.
pub append_uint32_lem :
    (b : Buffer) (x : ℕ)
    → IsValid b
    → IsValid (append_uint32 b x)
      × (contents (append_uint32 b x) ≡ contents b ++ uint32_bytes x)
      × (readable_bytes (append_uint32 b x) ≡ readable_bytes b + 4)
unfolding append_uint32
append_uint32_lem b x v =
    let (kept, added) = append_lem b (uint32_bytes x) v in
    (kept, added, readable_bytes-append b (uint32_bytes x) v)
