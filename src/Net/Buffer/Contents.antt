-- ===== src/Net/Buffer/Contents.antt =====
-- A buffer stands for the bytes between its two positions; each operation is the plain list
-- operation on these.
use project_chat.Common.{
  ℕ, ◌-◌, ◌≤◌, ◌<◌, ◌^◌, min, ◌≡◌, refl, ◌∙◌, sym, ap, List, [], ◌∷◌, ◌++◌, arith, length, take,
  drop, some, length-take, length-drop, take_all, drop_all, drop-drop, take-drop-take, Bool-cases,
  ltb, inl, inr, le→leb,
}
use project_chat.Net.Buffer.{
  Buffer, cheap_prepend, new, readable_bytes, peek, retrieve, retrieve_as_string, uint32_bytes,
  bytes_uint32, peek_uint32, retrieve_uint32,
}

pub record IsValid (b : Buffer) : Type 0 where
  pub prepend : cheap_prepend ≤ b.reader_index
  pub ordered : b.reader_index ≤ b.writer_index
  pub stored : b.writer_index ≤ length b.bytes

abbrev pub contents : Buffer → List ℕ
contents b = drop b.reader_index (take b.writer_index b.bytes)

pub length-contents : (b : Buffer) → IsValid b → length (contents b) ≡ readable_bytes b
length-contents b v = omega (
  arith,
  length-drop b.reader_index (take b.writer_index b.bytes),
  length-take b.writer_index b.bytes,
)

pub new-IsValid : IsValid new
unfolding new
new-IsValid = omega arith

pub readable_bytes-new : readable_bytes new ≡ 0
unfolding new
readable_bytes-new = refl

pub contents-new : contents new ≡ []
unfolding new
contents-new = refl

-- Reading through `peek` sees the contents.
pub peek-contents :
    (b : Buffer) (n : ℕ) → IsValid b → n ≤ readable_bytes b → peek b n ≡ take n (contents b)
peek-contents b n v h = sym (take-drop-take n b.reader_index b.writer_index b.bytes (omega arith))

pub peek_all : (b : Buffer) → IsValid b → peek b (readable_bytes b) ≡ contents b
peek_all b v =
    peek-contents b (readable_bytes b) v (omega arith)
    ∙ take_all (readable_bytes b) (contents b) (omega (arith, length-contents b v))

pub retrieve-IsValid : (b : Buffer) (n : ℕ) → IsValid b → IsValid (retrieve b n)
unfolding retrieve
retrieve-IsValid b n v = ground arith

pub contents-retrieve :
    (b : Buffer) (n : ℕ) → IsValid b → contents (retrieve b n) ≡ drop n (contents b)
unfolding retrieve
contents-retrieve b n v = elim (Bool-cases (ltb n (readable_bytes b))) [
  | inl less ↦ rw less (sym (drop-drop n b.reader_index (take b.writer_index b.bytes)))
  | inr rest ↦ rw rest (
      drop_all 8 (take 8 b.bytes) (omega (arith, length-take 8 b.bytes))
      ∙ sym (drop_all n (contents b) (ground (arith, length-contents b v))))
]

pub retrieve_uint32-IsValid : (b : Buffer) → IsValid b → IsValid (retrieve_uint32 b)
unfolding retrieve_uint32
retrieve_uint32-IsValid b v = retrieve-IsValid b 4 v

pub contents-retrieve_uint32 :
    (b : Buffer) → IsValid b → contents (retrieve_uint32 b) ≡ drop 4 (contents b)
unfolding retrieve_uint32
contents-retrieve_uint32 b v = contents-retrieve b 4 v

-- To retrieve no more bytes than are readable from a valid buffer gives the first bytes of its
-- contents, and leaves a valid buffer with the rest.
pub retrieve_as_string_lem :
    (b : Buffer) (n : ℕ)
    → IsValid b
    → n ≤ readable_bytes b
    → ((retrieve_as_string b n).0 ≡ take n (contents b))
      × (contents (retrieve_as_string b n).1 ≡ drop n (contents b))
      × IsValid (retrieve_as_string b n).1
unfolding retrieve_as_string
retrieve_as_string_lem b n v h =
    let e : min n (readable_bytes b) ≡ n = omega arith in
    rw e (peek-contents b n v h, contents-retrieve b n v, retrieve-IsValid b n v)

pub readable_bytes-retrieve :
    (b : Buffer) (n : ℕ) → IsValid b → readable_bytes (retrieve b n) ≡ readable_bytes b - n
readable_bytes-retrieve b n v = omega (
  arith,
  length-contents b v,
  length-contents (retrieve b n) (retrieve-IsValid b n v),
  ap length (contents-retrieve b n v),
  length-drop n (contents b),
)

-- A length written by `appendUint32` is the one that `peekUInt32` reads at the front.
pub bytes_uint32-uint32_bytes :
    (x : ℕ) (rest : List ℕ) → x < 2 ^ 32 → bytes_uint32 (uint32_bytes x ++ rest) ≡ some x
bytes_uint32-uint32_bytes x rest h = ap some (omega arith)

bytes_uint32-take : (xs : List ℕ) → bytes_uint32 (take 4 xs) ≡ bytes_uint32 xs
bytes_uint32-take [] = refl
bytes_uint32-take (a ∷ []) = refl
bytes_uint32-take (a ∷ b ∷ []) = refl
bytes_uint32-take (a ∷ b ∷ c ∷ []) = refl
bytes_uint32-take (a ∷ b ∷ c ∷ d ∷ rest) = refl

-- `peekUInt32` reads the number at the front of the contents, given that four bytes are there.
pub peek_uint32-contents :
    (b : Buffer) → IsValid b → 4 ≤ readable_bytes b → peek_uint32 b ≡ bytes_uint32 (contents b)
unfolding peek_uint32
peek_uint32-contents b v h =
    rw (le→leb 4 (readable_bytes b) h)
      (ap bytes_uint32 (peek-contents b 4 v h) ∙ bytes_uint32-take (contents b))
