-- ===== src/Serialization.antt =====
-- src/serialization/serialization.h and .cpp: the values of JSON documents, how they are made from cJSON's
-- trees and how they are printed. A text that is walked is the list of its bytes. An OutputValue has the
-- constructors of Json; the fields of an object stand in the order of their keys, as in std::map.
use Prim.Native.Char.{code}
use Prim.Native.Nat.{Ordering}
use factory_test.Common.{
  Bool, true, false, ◌==◌, ℕ, zero, suc, ◌+◌, ◌*◌, String, List, [], ◌∷◌, ◌++◌, ◌&&◌, Option, none,
  some, if◌then◌else◌, str_eq, str_lt, is_empty, concat,
}
use factory_test.Json.{
  Json, Items, Fields, null, bool, number, string, array, object, nil, cons, end, field,
}
pub mod Literals

abbrev pub bytes_of : String → List ℕ
bytes_of String.[] = []
bytes_of (String.◌∷◌ c s) = code c ∷ bytes_of s

abbrev pub escaped : ℕ → List ℕ
escaped ch =
    if ch == 92
    then 92 ∷ 92 ∷ []
    else if ch == 34
    then 92 ∷ 34 ∷ []
    else if ch == 10
    then 92 ∷ 110 ∷ []
    else if ch == 13
    then 92 ∷ 114 ∷ []
    else if ch == 9
    then 92 ∷ 116 ∷ []
    else ch ∷ []

unfoldable pub escape_string : List ℕ → List ℕ
escape_string [] = []
escape_string (ch ∷ value) = escaped ch ++ escape_string value

-- std::map::emplace: a key that is there already keeps its value.
unfoldable pub emplace : {D : Type 0} → String → Json D → Fields D → Fields D
emplace key value end = field key value end
emplace key value (field k v rest) =
    let later = emplace key value rest in
    if str_lt key k
    then field key value (field k v rest)
    else if str_eq key k
    then field k v rest
    else field k v later

-- output_value_from_json, from the tree that cJSON has parsed.
unfoldable mutual
  pub output_value_from_json : {D : Type 0} → Json D → Json D
  output_value_from_json null = null
  output_value_from_json (bool b) = bool b
  output_value_from_json (number d) = number d
  output_value_from_json (string s) = string s
  output_value_from_json (array items) = array (items_from_json items)
  output_value_from_json (object fields) = object (fields_from_json fields end)

  pub items_from_json : {D : Type 0} → Items D → Items D
  items_from_json nil = nil
  items_from_json (cons item items) = cons (output_value_from_json item) (items_from_json items)

  pub fields_from_json : {D : Type 0} → Fields D → Fields D → Fields D
  fields_from_json end values = values
  fields_from_json (field key item rest) values =
      fields_from_json rest (emplace key (output_value_from_json item) values)

pub record ParseResult (D : Type 0) : Type 0 where
  pub value : Json D
  pub error_message : String

abbrev pub success : {D : Type 0} → ParseResult D → Bool
success result = is_empty result.error_message

-- `parse` is cJSON_ParseWithLength, and `parse_error` the message for a text that it refuses.
module _ {D : Type 0} (parse : List ℕ → Option (Json D)) (parse_error : List ℕ → String) where
  unfoldable pub parse_json_output : List ℕ → ParseResult D
  parse_json_output text = elim (parse text) [
    | none ↦ record { value = null; error_message = parse_error text }
    | some root ↦ record { value = output_value_from_json root; error_message = "" }
  ]

  -- read_file answers the file's text, or none when it cannot be opened.
  unfoldable pub parse_json_file : (String → Option (List ℕ)) → String → ParseResult D
  parse_json_file read_file path = elim (read_file path) [
    | none ↦ record { value = null; error_message = concat "failed to open file: " path }
    | some content ↦ parse_json_output content
  ]

abbrev pub quoted : String → List ℕ
quoted s = 34 ∷ escape_string (bytes_of s) ++ 34 ∷ []

-- How a number is printed: a whole one in the fixed notation without decimals.
abbrev pub number_to_string :
    {D : Type 0} → (D → Bool) → (D → Bool) → (D → List ℕ) → (D → List ℕ) → D → List ℕ
number_to_string is_finite is_whole fixed max_digits d =
    if is_finite d && is_whole d then fixed d else max_digits d

-- The printers; `show` is how a number is printed, and `first` says that nothing stands before.
module _ {D : Type 0} (show : D → List ℕ) where
  unfoldable mutual
    pub output_value_to_string : Json D → List ℕ
    output_value_to_string null = bytes_of "null"
    output_value_to_string (bool true) = bytes_of "true"
    output_value_to_string (bool false) = bytes_of "false"
    output_value_to_string (number d) = show d
    output_value_to_string (string s) = quoted s
    output_value_to_string (array items) = 91 ∷ items_to_string true items ++ 93 ∷ []
    output_value_to_string (object fields) = 123 ∷ fields_to_string true fields ++ 125 ∷ []

    pub items_to_string : Bool → Items D → List ℕ
    items_to_string first nil = []
    items_to_string first (cons item items) =
        (if first then [] else bytes_of ", ")
        ++ output_value_to_string item
        ++ items_to_string false items

    pub fields_to_string : Bool → Fields D → List ℕ
    fields_to_string first end = []
    fields_to_string first (field key value rest) =
        (if first then [] else bytes_of ", ")
        ++ quoted key
        ++ bytes_of ": "
        ++ output_value_to_string value
        ++ fields_to_string false rest

  unfoldable pub spaces : ℕ → List ℕ
  spaces zero = []
  spaces (suc n) = 32 ∷ spaces n

  unfoldable mutual
    pub pretty_output_value : Json D → ℕ → ℕ → List ℕ
    pretty_output_value null indent_size depth = output_value_to_string null
    pretty_output_value (bool b) indent_size depth = output_value_to_string (bool b)
    pretty_output_value (number d) indent_size depth = output_value_to_string (number d)
    pretty_output_value (string s) indent_size depth = output_value_to_string (string s)
    pretty_output_value (array nil) indent_size depth = bytes_of "[]"
    pretty_output_value (array (cons item items)) indent_size depth =
        91 ∷ 10 ∷ pretty_items true (cons item items) indent_size depth
        ++ 10 ∷ spaces (depth * indent_size)
        ++ 93 ∷ []
    pretty_output_value (object end) indent_size depth = bytes_of "{}"
    pretty_output_value (object (field key value rest)) indent_size depth =
        123 ∷ 10 ∷ pretty_fields true (field key value rest) indent_size depth
        ++ 10 ∷ spaces (depth * indent_size)
        ++ 125 ∷ []

    pub pretty_items : Bool → Items D → ℕ → ℕ → List ℕ
    pretty_items first nil indent_size depth = []
    pretty_items first (cons item items) indent_size depth =
        (if first then [] else 44 ∷ 10 ∷ [])
        ++ spaces ((depth + 1) * indent_size)
        ++ pretty_output_value item indent_size (depth + 1)
        ++ pretty_items false items indent_size depth

    pub pretty_fields : Bool → Fields D → ℕ → ℕ → List ℕ
    pretty_fields first end indent_size depth = []
    pretty_fields first (field key value rest) indent_size depth =
        (if first then [] else 44 ∷ 10 ∷ [])
        ++ spaces ((depth + 1) * indent_size)
        ++ quoted key
        ++ bytes_of ": "
        ++ pretty_output_value value indent_size (depth + 1)
        ++ pretty_fields false rest indent_size depth

  abbrev pub output_value_to_pretty_string : Json D → ℕ → List ℕ
  output_value_to_pretty_string value indent_size =
      pretty_output_value value (if indent_size == 0 then 1 else indent_size) 0
