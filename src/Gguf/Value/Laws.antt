-- ===== src/Gguf/Value/Laws.antt =====
-- The encoding of the values of a model file, and that `skip_value` passes over it.
use mathlib.Core.List.{append_assoc}
use xdna_cpp.Base.{
  ℕ, zero, suc, ◌+◌, ◌^◌, ◌≡◌, ◌<◌, refl, sym, subst, ap, ◌∙◌, Bytes, [], ◌++◌, length, Option,
  some, arith, length-append,
}
use xdna_cpp.Gguf.Stream.{FileStream, read_number}
use xdna_cpp.Gguf.Stream.Laws.{
  Ahead, advanced, encode_number, encode_string, read_number-Ahead, advanced_number-Ahead,
  advanced-zero, advanced-Ahead, advanced-add, seek_cur-advanced, length-encode_number,
  length-encode_string,
}
use xdna_cpp.Gguf.Value.Numbers.{IsListed, number_sizes, number-skip_of}
use xdna_cpp.Gguf.Value.{over_string, skip_each, skip_value, string_type, array_type}

-- A value of the format: a number of a fixed size, a string, or an array of values of one type.
mutual
  pub data GgufValue : Type 0 where
    number : (type : ℕ) (content : Bytes) → GgufValue
    text : (content : Bytes) → GgufValue
    array : (element : ℕ) → GgufValues → GgufValue

  pub data GgufValues : Type 0 where
    empty : GgufValues
    follow : GgufValue → GgufValues → GgufValues

abbrev pub type_of : GgufValue → ℕ
type_of (number type content) = type
type_of (text content) = string_type
type_of (array element values) = array_type

abbrev pub count : GgufValues → ℕ
count empty = 0
count (follow value values) = suc (count values)

abbrev mutual
  pub encode : GgufValue → Bytes
  encode (number type content) = content
  encode (text content) = encode_string content
  encode (array element values) =
      encode_number 4 element ++ (encode_number 8 (count values) ++ encode_all values)

  pub encode_all : GgufValues → Bytes
  encode_all empty = []
  encode_all (follow value values) = encode value ++ encode_all values

-- How many arrays a value has.
abbrev mutual
  pub arrays_of : GgufValue → ℕ
  arrays_of (number type content) = 0
  arrays_of (text content) = 0
  arrays_of (array element values) = suc (arrays_of_all values)

  pub arrays_of_all : GgufValues → ℕ
  arrays_of_all empty = 0
  arrays_of_all (follow value values) = arrays_of value + arrays_of_all values

-- The numbers have the sizes of their types and fit into their fields, and the values of an array have its type.
abbrev mutual
  pub IsValue : GgufValue → Type 0
  IsValue (number type content) = IsListed number_sizes type (length content)
  IsValue (text content) = length content < 2 ^ 63
  IsValue (array element values) =
      (element < 2 ^ 32) × (count values < 2 ^ 64) × AreValues element values

  pub AreValues : ℕ → GgufValues → Type 0
  AreValues element empty = Unit
  AreValues element (follow value values) =
      (type_of value ≡ element) × IsValue value × AreValues element values

over_string-Ahead :
    (content rest : Bytes) (f : FileStream)
    → length content < 2 ^ 63
    → Ahead f (encode_string content ++ rest)
    → f.position + (8 + length content) < 2 ^ 63
    → over_string f ≡ advanced (8 + length content) f
unfolding encode_string
over_string-Ahead content rest f short ahead small =
    let ahead' =
      subst (Ahead f) (append_assoc (encode_number 8 (length content)) content rest) ahead in
    rw (
      read_number-Ahead 8 (length content) 0 f (content ++ rest) (omega (arith, short))
          (omega arith) ahead',
      seek_cur-advanced (length content) (advanced 8 f) refl (omega (arith, small)),
      advanced-add 8 (length content) f,
    )

length-encode_array :
    (element : ℕ) (values : GgufValues)
    → length (encode (array element values)) ≡ 12 + length (encode_all values)
length-encode_array element values = omega (
  arith,
  length-append (encode_number 4 element) (encode_number 8 (count values) ++ encode_all values),
  length-append (encode_number 8 (count values)) (encode_all values),
  length-encode_number 4 element,
  length-encode_number 8 (count values),
)

-- The element type and the count of an array are read, and its values are ahead.
array_header-Ahead :
    (element : ℕ) (values : GgufValues) (f : FileStream) (rest : Bytes)
    → element < 2 ^ 32
    → count values < 2 ^ 64
    → Ahead f (encode (array element values) ++ rest)
    → (read_number 4 0 f ≡ (element, advanced 4 f))
      × (read_number 8 0 (advanced 4 f) ≡ (count values, advanced 12 f))
      × Ahead (advanced 12 f) (encode_all values ++ rest)
array_header-Ahead element values f rest small few ahead =
    let behind = encode_number 8 (count values) ++ encode_all values in
    let first = subst (Ahead f) (append_assoc (encode_number 4 element) behind rest) ahead in
    let second =
      subst (Ahead (advanced 4 f))
        (append_assoc (encode_number 8 (count values)) (encode_all values) rest)
        (advanced_number-Ahead 4 element f (behind ++ rest) first) in
    let twelve = advanced-add 4 8 f in
    (
      read_number-Ahead 4 element 0 f (behind ++ rest) (omega (arith, small)) (omega arith) first,
      read_number-Ahead 8 (count values) 0 (advanced 4 f) (encode_all values ++ rest)
            (omega (arith, few)) (omega arith) second
          ∙ ap (λ g. (count values, g)) twelve,
      subst (λ g. Ahead g (encode_all values ++ rest)) twelve
          (advanced_number-Ahead 8 (count values) (advanced 4 f) (encode_all values ++ rest)
            second),
    )

skip_each-suc :
    (left : ℕ) (skip : FileStream → Option FileStream) (f f' : FileStream)
    → skip f ≡ some f'
    → skip_each (suc left) skip f ≡ skip_each left skip f'
unfolding skip_each
skip_each-suc left skip f f' h = rw (skip_each, h)

mutual
  unfolding skip_value skip_each

  skips :
      (value : GgufValue) (fuel : ℕ) (f : FileStream) (rest : Bytes)
      → arrays_of value < fuel
      → IsValue value
      → Ahead f (encode value ++ rest)
      → f.position + length (encode value) < 2 ^ 63
      → skip_value fuel (type_of value) f ≡ some (advanced (length (encode value)) f)
  skips (number type content) zero f rest deep valid ahead small = absurd (omega (arith, deep))
  skips (text content) zero f rest deep valid ahead small = absurd (omega (arith, deep))
  skips (array element values) zero f rest deep valid ahead small = absurd (omega (arith, deep))
  skips (number type content) (suc fuel) f rest deep valid ahead small = rw (
    skip_value,
    number-skip_of type (length content) valid,
    seek_cur-advanced (length content) f ahead.good small,
  )
  skips (text content) (suc fuel) f rest deep valid ahead small =
      ap some (
        over_string-Ahead content rest f valid ahead
          (omega (arith, small, length-encode_string content)))
      ∙ ap (λ (t : ℕ). some (advanced t f)) (sym (length-encode_string content))
  skips (array element values) (suc fuel) f rest deep (small_element, few, valid) ahead small =
      let (first, second, behind) =
        array_header-Ahead element values f rest small_element few ahead in
      let total = length-encode_array element values in
      let skipped =
        skips_all values element fuel (advanced 12 f) rest (omega (arith, deep)) valid behind
          (omega (arith, small, total)) in
      rw (first, second, skipped, total, advanced-add 12 (length (encode_all values)) f)

  skips_all :
      (values : GgufValues) (element fuel : ℕ) (f : FileStream) (rest : Bytes)
      → arrays_of_all values < fuel
      → AreValues element values
      → Ahead f (encode_all values ++ rest)
      → f.position + length (encode_all values) < 2 ^ 63
      → skip_each (count values) (λ g. skip_value fuel element g) f
        ≡ some (advanced (length (encode_all values)) f)
  skips_all empty element fuel f rest deep valid ahead small =
      ap some (sym (advanced-zero f ahead.good))
  skips_all (follow value values) element fuel f rest deep (typed, valid, valids) ahead small =
      let total = length-append (encode value) (encode_all values) in
      let ahead' = subst (Ahead f) (append_assoc (encode value) (encode_all values) rest) ahead in
      let skipped =
        skips value fuel f (encode_all values ++ rest) (omega (arith, deep)) valid ahead'
          (omega (arith, small, total)) in
      let others =
        skips_all values element fuel (advanced (length (encode value)) f) rest
          (omega (arith, deep)) valids
          (advanced-Ahead f (encode value) (encode_all values ++ rest) ahead')
          (omega (arith, small, total)) in
      skip_each-suc (count values) (λ g. skip_value fuel element g) f _
        (subst (λ (t : ℕ). skip_value fuel t f ≡ some (advanced (length (encode value)) f)) typed
          skipped)
      ∙ others
      ∙ ap some (
          advanced-add (length (encode value)) (length (encode_all values)) f
          ∙ ap (λ (t : ℕ). advanced t f) (sym total))

-- Where a value of the format, its numbers with the sizes of their types, stands at the position of
-- a good stream, `skip_value` returns, with the stream exactly behind the value, whatever arrays
-- are nested in it, as long as the fuel is more than its number of arrays and the value ends below
-- 2 ^ 63.
pub skip_value-encode :
    (value : GgufValue) (fuel : ℕ) (f : FileStream) (rest : Bytes)
    → arrays_of value < fuel
    → IsValue value
    → Ahead f (encode value ++ rest)
    → f.position + length (encode value) < 2 ^ 63
    → (skip_value fuel (type_of value) f ≡ some (advanced (length (encode value)) f))
      × Ahead (advanced (length (encode value)) f) rest
skip_value-encode value fuel f rest deep valid ahead small =
    (skips value fuel f rest deep valid ahead small, advanced-Ahead f (encode value) rest ahead)
