-- ===== src/Gate1/Json.antt =====
-- The text helpers of src/xdna-gate1.cpp: `trim`, the JSON readers and `decimal_string`. A position in a text is the
-- rest of the text from there.
pub mod Quoted
use xdna_cpp.Base.{
  ℕ, zero, suc, ◌+◌, ◌-◌, ◌*◌, ◌^◌, Bool, true, false, not, ◌&&◌, ◌||◌, Bytes, List, [], ◌∷◌, ◌++◌,
  reverse, Option, none, some, ◌==◌, leb, ltb, if◌then◌else◌, length, drop,
}
use xdna_cpp.Base.Text.{bytes, is_empty}

abbrev pub is_space : ℕ → Bool
is_space c = c == b' ' || c == b'\n' || c == b'\r' || c == b'\t'

abbrev pub skip_space : Bytes → Bytes
skip_space [] = []
skip_space (c ∷ text) = if is_space c then skip_space text else c ∷ text

-- Both loops of `trim`: from the front, then from the back.
unfoldable pub trim : Bytes → Bytes
trim text = reverse (skip_space (reverse (skip_space text)))

-- `std::string_view::find`: the rest of the text behind the first place where the needle stands.
abbrev pub after_prefix : Bytes → Bytes → Option Bytes
after_prefix [] text = some text
after_prefix (n ∷ needle) [] = none
after_prefix (n ∷ needle) (c ∷ text) = if n == c then after_prefix needle text else none

abbrev pub after_first : Bytes → Bytes → Option Bytes
after_first needle [] = after_prefix needle []
after_first needle (c ∷ text) = elim (after_prefix needle (c ∷ text)) [
  | some rest ↦ some rest
  | none ↦ after_first needle text
]

-- What stands behind the colon of the first `"key"`.
abbrev after_colon : Bytes → Option Bytes
after_colon [] = none
after_colon (c ∷ text) = if c == b':' then some (skip_space text) else none

pub json_value_start : (object key : Bytes) → Option Bytes
json_value_start object key = elim (after_first (b'"' ∷ key ++ b'"' ∷ []) object) [
  | none ↦ none
  | some rest ↦ after_colon (skip_space rest)
]

-- The character that stands for `\character`.
abbrev pub unescaped : ℕ → ℕ
unescaped character =
    if character == b'b'
    then 0x08
    else if character == b'f'
    then 0x0c
    else if character == b'n'
    then 0x0a
    else if character == b'r'
    then 0x0d
    else if character == b't'
    then 0x09
    else character

-- The loop of `json_string`, with the flag `escaped` and the value so far.
pub string_loop : (ℕ → ℕ) → Bool → Bytes → Bytes → Option Bytes
string_loop decode escaped value [] = none
string_loop decode true value (c ∷ text) = string_loop decode false (value ++ decode c ∷ []) text
string_loop decode false value (c ∷ text) = elim (c == b'\\') [
  | true ↦ string_loop decode true value text
  | false ↦ elim (c == b'"') [
    | true ↦ some value
    | false ↦ string_loop decode false (value ++ c ∷ []) text
  ]
]

abbrev string_at : Bytes → Option Bytes
string_at [] = none
string_at (c ∷ text) = if c == b'"' then string_loop unescaped false [] text else none

pub json_string : (object key : Bytes) → Option Bytes
json_string object key = elim (json_value_start object key) [
  | none ↦ none
  | some start ↦ string_at start
]

-- The loop of `json_object`. Its first character is `{`, so `depth` is positive at each `}`.
unfoldable pub object_loop :
    (depth : ℕ) → (in_string escaped : Bool) → (seen text : Bytes) → Option Bytes
object_loop depth in_string escaped seen [] = none
object_loop depth true true seen (c ∷ text) = object_loop depth true false (seen ++ c ∷ []) text
object_loop depth true false seen (c ∷ text) = elim (c == b'\\') [
  | true ↦ object_loop depth true true (seen ++ c ∷ []) text
  | false ↦ object_loop depth (not (c == b'"')) false (seen ++ c ∷ []) text
]
object_loop depth false escaped seen (c ∷ text) = elim (c == b'"') [
  | true ↦ object_loop depth true escaped (seen ++ c ∷ []) text
  | false ↦ elim (c == b'{') [
    | true ↦ object_loop (depth + 1) false escaped (seen ++ c ∷ []) text
    | false ↦ elim (c == b'}') [
      | true ↦ elim (depth - 1 == 0) [
        | true ↦ some (seen ++ c ∷ [])
        | false ↦ object_loop (depth - 1) false escaped (seen ++ c ∷ []) text
      ]
      | false ↦ object_loop depth false escaped (seen ++ c ∷ []) text
    ]
  ]
]

abbrev object_at : Bytes → Option Bytes
object_at [] = none
object_at (c ∷ text) = if c == b'{' then object_loop 0 false false [] (c ∷ text) else none

unfoldable pub json_object : (object key : Bytes) → Option Bytes
json_object object key = elim (json_value_start object key) [
  | none ↦ none
  | some start ↦ object_at start
]

-- `json_first_array_string` takes the next quoted text, and decodes no escape.
abbrev first_string_at : Bytes → Option Bytes
first_string_at [] = none
first_string_at (c ∷ text) =
    if c == b'['
    then (elim (after_first (b'"' ∷ []) text) [
      | none ↦ none
      | some rest ↦ string_loop (λ character. character) false [] rest
    ])
    else none

unfoldable pub json_first_array_string : (object key : Bytes) → Option Bytes
json_first_array_string object key = elim (json_value_start object key) [
  | none ↦ none
  | some start ↦ first_string_at start
]

-- `std::from_chars` over the whole text: decimal digits only, and a value that is a `uint32_t`.
unfoldable pub from_chars : (value : ℕ) → Bytes → Option ℕ
from_chars value [] = if ltb value (2 ^ 32) then some value else none
from_chars value (c ∷ text) = elim (leb b'0' c && leb c b'9') [
  | true ↦ from_chars (value * 10 + (c - b'0')) text
  | false ↦ none
]

unfoldable pub decimal_string : Bytes → Option ℕ
decimal_string text = let clean = trim text in if is_empty clean then none else from_chars 0 clean

unfoldable pub json_decimal : (object key : Bytes) → Option ℕ
json_decimal object key = elim (json_string object key) [
  | none ↦ none
  | some value ↦ decimal_string value
]
