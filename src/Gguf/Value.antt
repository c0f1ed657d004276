-- ===== src/Gguf/Value.antt =====
-- `skip_value` of tools/xdna-gguf-info.cpp.
pub mod Numbers
pub mod Laws
pub mod Endless
use xdna_cpp.Base.{
  ℕ, zero, suc, ◌+◌, Bool, true, false, ◌||◌, Option, none, some, ◌==◌, if◌then◌else◌,
}
use xdna_cpp.Gguf.Stream.{FileStream, read_number, seek_cur}

-- The enumerators of GgufMetadataValueType, as the values of the underlying type.
abbrev pub uint8_type : ℕ
uint8_type = 0

abbrev pub int8_type : ℕ
int8_type = 1

abbrev pub uint16_type : ℕ
uint16_type = 2

abbrev pub int16_type : ℕ
int16_type = 3

abbrev pub uint32_type : ℕ
uint32_type = 4

abbrev pub int32_type : ℕ
int32_type = 5

abbrev pub float32_type : ℕ
float32_type = 6

abbrev pub bool_type : ℕ
bool_type = 7

abbrev pub string_type : ℕ
string_type = 8

abbrev pub array_type : ℕ
array_type = 9

abbrev pub uint64_type : ℕ
uint64_type = 10

abbrev pub int64_type : ℕ
int64_type = 11

abbrev pub float64_type : ℕ
float64_type = 12

-- The branches of the switch.
pub data Skip : Type 0 where
  skip_bytes : (size : ℕ) → Skip
  skip_string : Skip
  skip_array : Skip
  skip_nothing : Skip

abbrev pub skip_of : ℕ → Skip
skip_of type =
    if type == uint8_type || type == int8_type || type == bool_type
    then skip_bytes 1
    else if type == uint16_type || type == int16_type
    then skip_bytes 2
    else if type == uint32_type || type == int32_type || type == float32_type
    then skip_bytes 4
    else if type == uint64_type || type == int64_type || type == float64_type
    then skip_bytes 8
    else if type == string_type
    then skip_string
    else if type == array_type
    then skip_array
    else skip_nothing

abbrev pub over_string : FileStream → FileStream
over_string f = let (len, f') = read_number 8 0 f in seek_cur len f'

-- The loop over the elements.
unfoldable pub skip_each : ℕ → (FileStream → Option FileStream) → FileStream → Option FileStream
skip_each zero skip f = some f
skip_each (suc left) skip f = elim (skip f) [ none ↦ none | some f' ↦ skip_each left skip f' ]

-- An array calls `skip_value` for its elements. The fuel is the depth of the calls, `none` where it is exceeded.
unfoldable pub skip_value : (fuel : ℕ) → (type : ℕ) → FileStream → Option FileStream
skip_value zero type f = none
skip_value (suc fuel) type f = elim (skip_of type) [
  | skip_bytes size ↦ some (seek_cur size f)
  | skip_string ↦ some (over_string f)
  | skip_nothing ↦ some f
  | skip_array ↦
      let (element, f') = read_number 4 0 f in
      let (count, f'') = read_number 8 0 f' in skip_each count (λ g. skip_value fuel element g) f''
]
