-- ===== src/Gguf/Inspect/Laws.antt =====
-- The encoding of the metadata of a model file, and what the inspection understands of it.
pub mod Keys
pub mod Fields
pub mod Report
pub mod File
use mathlib.Core.List.{append_assoc}
use xdna_cpp.Base.{
  ℕ, zero, suc, ◌+◌, ◌^◌, ◌≡◌, ◌<◌, ◌≤◌, refl, sym, subst, ap, ◌∙◌, Bool, true, false, ◌&&◌, ◌||◌,
  Bytes, List, [], ◌∷◌, ◌++◌, length, Bool-cases, inl, inr, Option, some, ◌==◌, ==_iff,
  if◌then◌else◌, arith, length-append,
}
use xdna_cpp.Base.Text.{bytes, ◌=ˢ◌}
use xdna_cpp.Gguf.Inspect.{
  ModelInfo, Field, arch_field, block_count_field, embedding_length_field,
  feed_forward_length_field, head_count_field, head_count_kv_field, other_field, field_of, branch,
  field_value, set_field, read_number_field, read_field, read_pair, read_metadata,
}
use xdna_cpp.Gguf.Stream.{FileStream, read_bytes, read_number, read_string, overwritten}
use xdna_cpp.Gguf.Stream.Laws.{
  Ahead, Ahead-assoc, advanced, encode_number, encode_string, read_bytes-Ahead, read_number-Ahead,
  read_string-Ahead, advanced_number-Ahead, advanced-Ahead, advanced-add, advanced-zero,
  length-encode_number, length-encode_string,
}
use xdna_cpp.Gguf.Value.{
  Skip, skip_bytes, skip_string, skip_array, skip_nothing, skip_of, skip_value, string_type,
  uint32_type,
}
use xdna_cpp.Gguf.Value.Numbers.{number-skip_of}
use xdna_cpp.Gguf.Value.Laws.{
  GgufValue, number, text, array, type_of, encode, arrays_of, IsValue, skip_value-encode,
}

-- A key with its value.
pub record Pair : Type 0 where
  pub key : Bytes
  pub value : GgufValue

unfoldable pub encode_pair : Pair → Bytes
encode_pair pair =
    encode_string pair.key ++ (encode_number 4 (type_of pair.value) ++ encode pair.value)

-- A string that `read_string` reads.
abbrev pub IsShort : GgufValue → Type 0
IsShort (number type content) = Unit
IsShort (text content) = length content ≤ 1000000
IsShort (array element values) = Unit

-- The pair is one of the format, its strings are short, and the fuel is enough for its arrays.
pub record IsPair (fuel : ℕ) (pair : Pair) : Type 0 where
  pub key_short : length pair.key ≤ 1000000
  pub type_word : type_of pair.value < 2 ^ 32
  pub valid : IsValue pair.value
  pub fueled : arrays_of pair.value < fuel
  pub arch_short : IsShort pair.value

abbrev understood_text : ModelInfo → GgufValue → ModelInfo
understood_text info (number type content) = info
understood_text info (text content) = record info { arch = content }
understood_text info (array element values) = info

abbrev understood_number : Field → ModelInfo → GgufValue → ModelInfo
understood_number field info (number type content) =
    set_field field info (overwritten (field_value field info) content)
understood_number field info (text content) = info
understood_number field info (array element values) = info

-- A string is the architecture or nothing, a number is stored in the variable of its field.
abbrev understood : Field → ModelInfo → GgufValue → ModelInfo
understood arch_field info value = understood_text info value
understood other_field info value = info
understood block_count_field info value = understood_number block_count_field info value
understood embedding_length_field info value = understood_number embedding_length_field info value
understood feed_forward_length_field info value =
    understood_number feed_forward_length_field info value
understood head_count_field info value = understood_number head_count_field info value
understood head_count_kv_field info value = understood_number head_count_kv_field info value

abbrev pub understood_pair : ModelInfo → Pair → ModelInfo
understood_pair info pair =
    understood (field_of info.arch pair.key (type_of pair.value)) info pair.value

-- The type that the test of a branch asks for.
abbrev IsTyped : Field → ℕ → Type 0
IsTyped arch_field type = type ≡ string_type
IsTyped other_field type = Unit
IsTyped block_count_field type = type ≡ uint32_type
IsTyped embedding_length_field type = type ≡ uint32_type
IsTyped feed_forward_length_field type = type ≡ uint32_type
IsTyped head_count_field type = type ≡ uint32_type
IsTyped head_count_kv_field type = type ≡ uint32_type

branch-IsTyped :
    (matches : Bool) (type wanted : ℕ) (field other : Field)
    → (type ≡ wanted → IsTyped field type)
    → IsTyped other type
    → IsTyped (branch matches type wanted field other) type
unfolding branch
branch-IsTyped false type wanted field other typed rest = rest
branch-IsTyped true type wanted field other typed rest = elim (Bool-cases (type == wanted)) [
  | inl same ↦ rw (branch, same) (typed ((==_iff type wanted).0 same))
  | inr apart ↦ rw (branch, apart) rest
]

field_of-IsTyped : (arch key : Bytes) (type : ℕ) → IsTyped (field_of arch key type) type
unfolding field_of
field_of-IsTyped arch key type =
    branch-IsTyped _ type string_type arch_field _ (λ e. e)
      (branch-IsTyped _ type uint32_type block_count_field _ (λ e. e)
        (branch-IsTyped _ type uint32_type embedding_length_field _ (λ e. e)
          (branch-IsTyped _ type uint32_type feed_forward_length_field _ (λ e. e)
            (branch-IsTyped _ type uint32_type head_count_field _ (λ e. e)
              (branch-IsTyped _ type uint32_type head_count_kv_field _ (λ e. e) tt)))))

abbrev size_of : Skip → ℕ
size_of (skip_bytes size) = size
size_of skip_string = 0
size_of skip_array = 0
size_of skip_nothing = 0

-- A number of four bytes goes to its variable.
read_number_field-encode :
    (field : Field) (value : GgufValue) (info : ModelInfo) (f : FileStream) (rest : Bytes)
    → type_of value ≡ uint32_type
    → IsValue value
    → Ahead f (encode value ++ rest)
    → read_number_field field info f
      ≡ (understood_number field info value, advanced (length (encode value)) f)
unfolding read_number
read_number_field-encode field (number type content) info f rest typed valid ahead =
    let four : 4 ≡ length content = ap size_of (
      subst (λ (t : ℕ). skip_of t ≡ skip_bytes (length content)) typed
        (number-skip_of type (length content) valid)) in
    let reads =
      subst (λ (t : ℕ). read_bytes t f ≡ (content, advanced (length content) f)) (sym four)
        (read_bytes-Ahead f content rest ahead) in
    rw (reads)
read_number_field-encode field (text content) info f rest typed valid ahead =
    absurd (omega (arith, typed))
read_number_field-encode field (array element values) info f rest typed valid ahead =
    absurd (omega (arith, typed))

read_arch-encode :
    (value : GgufValue) (fuel : ℕ) (info : ModelInfo) (f : FileStream) (rest : Bytes)
    → type_of value ≡ string_type
    → IsValue value
    → IsShort value
    → Ahead f (encode value ++ rest)
    → read_field arch_field fuel (type_of value) info f
      ≡ some (understood_text info value, advanced (length (encode value)) f)
unfolding read_field
read_arch-encode (number type content) fuel info f rest typed valid short ahead =
    let wrong =
      subst (λ (t : ℕ). skip_of t ≡ skip_bytes (length content)) typed
        (number-skip_of type (length content) valid) in
    ground (arith, wrong)
read_arch-encode (text content) fuel info f rest typed valid short ahead =
    rw (read_string-Ahead content rest f short ahead, sym (length-encode_string content))
read_arch-encode (array element values) fuel info f rest typed valid short ahead =
    absurd (omega (arith, typed))

read_field-encode :
    (field : Field) (value : GgufValue) (fuel : ℕ) (info : ModelInfo) (f : FileStream)
    (rest : Bytes)
    → IsTyped field (type_of value)
    → IsValue value
    → arrays_of value < fuel
    → IsShort value
    → Ahead f (encode value ++ rest)
    → f.position + length (encode value) < 2 ^ 63
    → read_field field fuel (type_of value) info f
      ≡ some (understood field info value, advanced (length (encode value)) f)
unfolding read_field
read_field-encode other_field value fuel info f rest typed valid fueled short ahead small =
    rw ((skip_value-encode value fuel f rest fueled valid ahead small).0)
read_field-encode arch_field value fuel info f rest typed valid fueled short ahead small =
    read_arch-encode value fuel info f rest typed valid short ahead
read_field-encode block_count_field value fuel info f rest typed valid fueled short ahead small =
    ap some (read_number_field-encode block_count_field value info f rest typed valid ahead)
read_field-encode embedding_length_field value fuel info f rest typed valid fueled short ahead
      small =
    ap some (read_number_field-encode embedding_length_field value info f rest typed valid ahead)
read_field-encode feed_forward_length_field value fuel info f rest typed valid fueled short ahead
      small =
    ap some (read_number_field-encode feed_forward_length_field value info f rest typed valid ahead)
read_field-encode head_count_field value fuel info f rest typed valid fueled short ahead small =
    ap some (read_number_field-encode head_count_field value info f rest typed valid ahead)
read_field-encode head_count_kv_field value fuel info f rest typed valid fueled short ahead small =
    ap some (read_number_field-encode head_count_kv_field value info f rest typed valid ahead)

read_pair-encode_pair :
    (pair : Pair) (fuel : ℕ) (info : ModelInfo) (f : FileStream) (rest : Bytes)
    → IsPair fuel pair
    → Ahead f (encode_pair pair ++ rest)
    → f.position + length (encode_pair pair) < 2 ^ 63
    → read_pair fuel info f
      ≡ some (understood_pair info pair, advanced (length (encode_pair pair)) f)
unfolding read_pair encode_pair
read_pair-encode_pair pair fuel info f rest valid ahead small =
    let tail = encode_number 4 (type_of pair.value) ++ encode pair.value in
    let f₁ = advanced (8 + length pair.key) f in
    let f₂ = advanced 4 f₁ in
    let a₀ = Ahead-assoc f (encode_string pair.key) tail rest ahead in
    let a₁ = Ahead-assoc f₁ (encode_number 4 (type_of pair.value)) (encode pair.value) rest (
      subst (λ (t : ℕ). Ahead (advanced t f) (tail ++ rest)) (length-encode_string pair.key)
        (advanced-Ahead f (encode_string pair.key) (tail ++ rest) a₀)) in
    let a₂ = advanced_number-Ahead 4 (type_of pair.value) f₁ (encode pair.value ++ rest) a₁ in
    let total : 8 + length pair.key + 4 + length (encode pair.value)
        ≡ length (encode_string pair.key ++ tail) =
      omega (
        arith,
        length-append (encode_string pair.key) tail,
        length-encode_string pair.key,
        length-append (encode_number 4 (type_of pair.value)) (encode pair.value),
        length-encode_number 4 (type_of pair.value),
      ) in
    rw
      (
        read_string-Ahead pair.key (tail ++ rest) f valid.key_short a₀,
        read_number-Ahead 4 (type_of pair.value) 0 f₁ (encode pair.value ++ rest)
            (omega (arith, valid.type_word)) (omega arith) a₁,
        sym total,
      )
      (read_field-encode _ pair.value fuel info f₂ rest
          (field_of-IsTyped info.arch pair.key (type_of pair.value)) valid.valid valid.fueled
          valid.arch_short a₂ (omega (arith, small, total))
        ∙ ap
            (λ (t : ℕ). some (understood_pair info pair, record f { position = t; failed = false }))
            (omega arith))
