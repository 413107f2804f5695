-- ===== src/Net/Buffer.antt =====
-- src/Buffer.cpp: a byte vector with a read and a write position, and the four bytes of a length
-- in network order. A byte is a number. `std::vector` storage is the list `bytes`.
pub mod Contents
pub mod Room
use mathlib.Core.Option
use project_chat.Common.{
  ℕ, zero, suc, ◌+◌, ◌-◌, ◌*◌, ◌/◌, ◌%◌, ◌^◌, ◌≤◌, min, ◌≡◌, List, [], ◌∷◌, ◌++◌, Option, none,
  some, length, take, drop, replicate, leb, ltb, eqb, if◌then◌else◌,
}

-- `kCheapPrepend`
abbrev pub cheap_prepend : ℕ
cheap_prepend = 8

pub record Buffer : Type 0 where
  pub bytes : List ℕ
  pub reader_index : ℕ
  pub writer_index : ℕ

-- The constructor.
pub new : Buffer
new = record {
  bytes = replicate (cheap_prepend + 1024) 0;
  reader_index = cheap_prepend;
  writer_index = cheap_prepend;
}

abbrev pub readable_bytes : Buffer → ℕ
readable_bytes b = b.writer_index - b.reader_index

abbrev pub writeable_bytes : Buffer → ℕ
writeable_bytes b = length b.bytes - b.writer_index

abbrev pub prependable_bytes : Buffer → ℕ
prependable_bytes b = b.reader_index

-- The `n` bytes that start at `peek()`.
abbrev pub peek : Buffer → ℕ → List ℕ
peek b n = take n (drop b.reader_index b.bytes)

-- Copies `xs` over the bytes from index `i` on (`std::copy`, `std::memmove`).
abbrev pub overwrite : List ℕ → ℕ → List ℕ → List ℕ
overwrite bytes i xs = take i bytes ++ (xs ++ drop (i + length xs) bytes)

-- `hasWritten`; its assertion is a premise of what is proved of its callers.
pub has_written : Buffer → ℕ → Buffer
has_written b n = record b { writer_index = b.writer_index + n }

pub retrieve_all : Buffer → Buffer
retrieve_all b = record b { reader_index = cheap_prepend; writer_index = cheap_prepend }

pub retrieve : Buffer → ℕ → Buffer
unfolding retrieve_all
retrieve b len =
    if ltb len (readable_bytes b)
    then record b { reader_index = b.reader_index + len }
    else retrieve_all b

-- A pointer into the storage is an index.
pub retrieve_until : Buffer → ℕ → Buffer
unfolding retrieve
retrieve_until b end = retrieve b (end - b.reader_index)

abbrev pub find_byte : ℕ → List ℕ → Option ℕ
find_byte x [] = none
find_byte x (y ∷ ys) = if eqb y x then some 0 else Option.map suc (find_byte x ys)

-- `findEOL`, with the index of the newline (10).
pub find_eol : Buffer → Option ℕ
find_eol b = Option.map (λ i. b.reader_index + i) (find_byte 10 (peek b (readable_bytes b)))

pub retrieve_as_string : Buffer → ℕ → List ℕ × Buffer
retrieve_as_string b len = let n = min len (readable_bytes b) in (peek b n, retrieve b n)

-- `std::vector::resize`: a cut, or zeros at the end.
abbrev pub resize : List ℕ → ℕ → List ℕ
resize bytes n = take n bytes ++ replicate (n - length bytes) 0

-- The two ways to make room: moving the contents to the front, and growing the storage.
move_to_front : Buffer → Buffer
move_to_front b = record {
  bytes = overwrite b.bytes cheap_prepend (peek b (readable_bytes b));
  reader_index = cheap_prepend;
  writer_index = cheap_prepend + readable_bytes b;
}

grow : Buffer → ℕ → Buffer
grow b len = record b { bytes = resize b.bytes (b.writer_index + len) }

pub ensure_writable_bytes : Buffer → ℕ → Buffer
ensure_writable_bytes b len =
    if leb len (writeable_bytes b)
    then b
    else if leb len (writeable_bytes b + prependable_bytes b - cheap_prepend)
    then move_to_front b
    else grow b len

-- `std::copy` to `beginWrite()`.
copy_in : Buffer → List ℕ → Buffer
copy_in b xs = record b { bytes = overwrite b.bytes b.writer_index xs }

pub append : Buffer → List ℕ → Buffer
unfolding copy_in has_written
append b xs = has_written (copy_in (ensure_writable_bytes b (length xs)) xs) (length xs)

-- `htonl` and the four bytes of its result as they lie in memory: the highest first.
abbrev pub uint32_bytes : ℕ → List ℕ
uint32_bytes x = (x / 2 ^ 24 % 256) ∷ (x / 2 ^ 16 % 256) ∷ (x / 2 ^ 8 % 256) ∷ (x % 256) ∷ []

-- `memcpy` of four bytes and `ntohl`; fewer bytes fail the assertion.
abbrev pub bytes_uint32 : List ℕ → Option ℕ
bytes_uint32 (a ∷ b ∷ c ∷ d ∷ rest) = some (a * 2 ^ 24 + b * 2 ^ 16 + c * 2 ^ 8 + d)
bytes_uint32 _ = none

pub peek_uint32 : Buffer → Option ℕ
peek_uint32 b = if leb 4 (readable_bytes b) then bytes_uint32 (peek b 4) else none

pub retrieve_uint32 : Buffer → Buffer
retrieve_uint32 b = retrieve b 4

pub append_uint32 : Buffer → ℕ → Buffer
append_uint32 b x = append b (uint32_bytes x)

-- `readFd` on the bytes that one successful `readv` delivers: what fits goes straight behind the
-- write position, the rest goes through the stack array and `append`.
pub read_fd : Buffer → List ℕ → Buffer
unfolding copy_in has_written
read_fd b received =
    let room = writeable_bytes b in
    if leb (length received) room
    then has_written (copy_in b received) (length received)
    else append (has_written (copy_in b (take room received)) room) (drop room received)

-- `writeFd` when `send` takes `sent` bytes (a result below 0 changes nothing).
pub write_fd : Buffer → ℕ → Buffer
write_fd b zero = b
write_fd b (suc n) = retrieve b (suc n)
