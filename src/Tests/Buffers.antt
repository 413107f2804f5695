-- ===== src/Tests/Buffers.antt =====
-- The buffer at concrete inputs.
use project_chat.Common.{◌≡◌, [], ◌∷◌, ◌++◌, arith}
use project_chat.Net.Buffer.{Buffer, append, read_fd}
use project_chat.Net.Buffer.Contents.{IsValid, contents}
use project_chat.Net.Buffer.Room.{append_lem, read_fd_lem}

-- Four bytes of room for two bytes that wait, one of them in the last place but one.
abbrev short : Buffer
short = record {
  bytes = 0 ∷ 0 ∷ 0 ∷ 0 ∷ 0 ∷ 0 ∷ 0 ∷ 0 ∷ 0 ∷ 65 ∷ 66 ∷ 0 ∷ [];
  reader_index = 9;
  writer_index = 11;
}

short-IsValid : IsValid short
short-IsValid = omega arith

append_lem_example :
    IsValid (append short (67 ∷ 68 ∷ []))
    × (contents (append short (67 ∷ 68 ∷ [])) ≡ contents short ++ 67 ∷ 68 ∷ [])
append_lem_example = append_lem short (67 ∷ 68 ∷ []) short-IsValid

read_fd_lem_example :
    IsValid (read_fd short (67 ∷ 68 ∷ []))
    × (contents (read_fd short (67 ∷ 68 ∷ [])) ≡ contents short ++ 67 ∷ 68 ∷ [])
read_fd_lem_example = read_fd_lem short (67 ∷ 68 ∷ []) short-IsValid
