-- ===== src/Tests/Json.antt =====
-- A small model of JSON for the theorems that take the library as a parameter.
use project_chat.Common.{
  ℕ, String, Bool, true, false, Option, none, some, List, [], ◌∷◌, ◌||◌, ◌==◌, string_key,
  if◌then◌else◌,
}
use project_chat.Common.Int.{pos}
use project_chat.Im.Json.{Json}

mutual
  pub data Value : Type 0 where
    null : Value
    number : ℕ → Value
    text : String → Value
    boolean : Bool → Value
    array : Items → Value
    object : Fields → Value

  pub data Items : Type 0 where
    nil : Items
    cons : Value → Items → Items

  pub data Fields : Type 0 where
    end : Fields
    field : String → Value → Fields → Fields

abbrev fields_of : Value → Fields
fields_of (object fs) = fs
fields_of _ = end

abbrev has_field : String → Fields → Bool
has_field k end = false
has_field k (field j v fs) = (j == k) || has_field k fs

abbrev get_field : String → Fields → Value
get_field k end = null
get_field k (field j v fs) = if j == k then v else get_field k fs

abbrev list_of : Items → List Value
list_of nil = []
list_of (cons v vs) = v ∷ list_of vs

abbrev items_of : Value → List Value
items_of (array vs) = list_of vs
items_of _ = []

abbrev from_list : List Value → Items
from_list [] = nil
from_list (v ∷ vs) = cons v (from_list vs)

abbrev from_fields : List (String × Value) → Fields
from_fields [] = end
from_fields ((k, v) ∷ fs) = field k v (from_fields fs)

abbrev number_of : Value → Option ℕ
number_of (number n) = some n
number_of _ = none

abbrev text_of : Value → Option String
text_of (text s) = some s
text_of _ = none

abbrev number_or : Value → ℕ
number_or (number n) = n
number_or _ = 0

abbrev text_or : Value → String
text_or (text s) = s
text_or _ = ""

abbrev truth_or : Value → Bool
truth_or (boolean b) = b
truth_or _ = false

abbrev is_number : Value → Bool
is_number (number n) = true
is_number _ = false

abbrev is_text : Value → Bool
is_text (text s) = true
is_text _ = false

abbrev is_truth : Value → Bool
is_truth (boolean b) = true
is_truth _ = false

abbrev is_list : Value → Bool
is_list (array vs) = true
is_list _ = false

abbrev is_record : Value → Bool
is_record (object fs) = true
is_record _ = false

-- Every text is read as the value that is given.
abbrev pub values : Value → Json Value
values read = record {
  parse = λ s. some read;
  dump = λ v. "";
  contains = λ v k. has_field k (fields_of v);
  at = λ v k. get_field k (fields_of v);
  is_array = is_list;
  is_object = is_record;
  is_string = is_text;
  is_boolean = is_truth;
  is_number_unsigned = is_number;
  is_number_integer = is_number;
  items = items_of;
  tested_string = text_or;
  tested_bool = truth_or;
  tested_uint64 = number_or;
  tested_int64 = λ v. pos (number_or v);
  get_string = text_of;
  get_uint32 = number_of;
  get_uint64 = number_of;
  null = null;
  text = text;
  number = number;
  boolean = boolean;
  array = λ vs. array (from_list vs);
  object = λ fs. object (from_fields fs);
  put = λ v k w. object (field k w (fields_of v));
}
