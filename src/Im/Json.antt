-- ===== src/Im/Json.antt =====
-- The JSON library as its clients see it: a value of any type `J`, with the calls that the code of
-- the server makes. A `get<T>` of a value whose type the code has tested does not throw, and is one
-- of the `tested_` fields; any other may throw a `type_error`, and is an `Option`.
use project_chat.Common.{ℕ, String, Bool, Option, List}
use project_chat.Common.Int.{ℤ}

pub record Json (J : Type 0) : Type 0 where
  -- `none` is a `parse_error`.
  pub parse : String → Option J
  pub dump : J → String
  pub contains : J → String → Bool
  -- `operator[]` of a key that is there.
  pub at : J → String → J
  pub is_array : J → Bool
  pub is_object : J → Bool
  pub is_string : J → Bool
  pub is_boolean : J → Bool
  pub is_number_unsigned : J → Bool
  pub is_number_integer : J → Bool
  pub items : J → List J
  pub tested_string : J → String
  pub tested_bool : J → Bool
  pub tested_uint64 : J → ℕ
  pub tested_int64 : J → ℤ
  pub get_string : J → Option String
  pub get_uint32 : J → Option ℕ
  pub get_uint64 : J → Option ℕ
  -- `json{}`, and the values a response is built from.
  pub null : J
  pub text : String → J
  pub number : ℕ → J
  pub boolean : Bool → J
  pub array : List J → J
  pub object : List (String × J) → J
  -- `data[key]=value`
  pub put : J → String → J → J
