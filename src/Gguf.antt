-- ===== src/Gguf.antt =====
-- The types of a model file, from tools/xdna-gguf-info.cpp.
pub mod Stream
pub mod Value
pub mod Tensor
pub mod Totals
pub mod Inspect
use xdna_cpp.Base.{ℕ, ◌+◌, ◌*◌, ◌/◌, Bytes, List, [], ◌∷◌, Option, none, some, get_elem?}
use xdna_cpp.Base.Text.{bytes}

-- The enumerators, and the values of the underlying type that have no name.
pub data GgmlType : Type 0 where
  f32 f16 q4_0 q4_1 q5_0 q5_1 q8_0 q8_1 : GgmlType
  q2_k q3_k q4_k q5_k q6_k q8_k : GgmlType
  iq2_xxs iq2_xs iq3_xxs iq1_s iq4_nl iq3_s iq2_s iq4_xs : GgmlType
  i8 i16 i32 i64 f64 iq1_m bf16 : GgmlType
  unnamed : (raw : ℕ) → GgmlType

abbrev named_types : List GgmlType
named_types =
    f32
    ∷ f16
    ∷ q4_0
    ∷ q4_1
    ∷ unnamed 4
    ∷ unnamed 5
    ∷ q5_0
    ∷ q5_1
    ∷ q8_0
    ∷ q8_1
    ∷ q2_k
    ∷ q3_k
    ∷ q4_k
    ∷ q5_k
    ∷ q6_k
    ∷ q8_k
    ∷ iq2_xxs
    ∷ iq2_xs
    ∷ iq3_xxs
    ∷ iq1_s
    ∷ iq4_nl
    ∷ iq3_s
    ∷ iq2_s
    ∷ iq4_xs
    ∷ i8
    ∷ i16
    ∷ i32
    ∷ i64
    ∷ f64
    ∷ iq1_m
    ∷ bf16
    ∷ []

-- `static_cast<GgmlType>(raw)`; `UNKNOWN` is 999, which no switch names.
abbrev pub to_type : ℕ → GgmlType
to_type raw = elim (get_elem? named_types raw) [ none ↦ unnamed raw | some type ↦ type ]

abbrev pub ggml_type_name : GgmlType → Bytes
ggml_type_name f32 = bytes "F32"
ggml_type_name f16 = bytes "F16"
ggml_type_name q4_0 = bytes "Q4_0"
ggml_type_name q4_1 = bytes "Q4_1"
ggml_type_name q5_0 = bytes "Q5_0"
ggml_type_name q5_1 = bytes "Q5_1"
ggml_type_name q8_0 = bytes "Q8_0"
ggml_type_name q8_1 = bytes "Q8_1"
ggml_type_name q2_k = bytes "Q2_K"
ggml_type_name q3_k = bytes "Q3_K"
ggml_type_name q4_k = bytes "Q4_K"
ggml_type_name q5_k = bytes "Q5_K"
ggml_type_name q6_k = bytes "Q6_K"
ggml_type_name q8_k = bytes "Q8_K"
ggml_type_name iq2_xxs = bytes "IQ2_XXS"
ggml_type_name iq2_xs = bytes "IQ2_XS"
ggml_type_name iq3_xxs = bytes "IQ3_XXS"
ggml_type_name iq1_s = bytes "IQ1_S"
ggml_type_name iq4_nl = bytes "IQ4_NL"
ggml_type_name iq3_s = bytes "IQ3_S"
ggml_type_name iq2_s = bytes "IQ2_S"
ggml_type_name iq4_xs = bytes "IQ4_XS"
ggml_type_name i8 = bytes "I8"
ggml_type_name i16 = bytes "I16"
ggml_type_name i32 = bytes "I32"
ggml_type_name i64 = bytes "I64"
ggml_type_name f64 = bytes "F64"
ggml_type_name iq1_m = bytes "IQ1_M"
ggml_type_name bf16 = bytes "BF16"
ggml_type_name (unnamed raw) = bytes "UNKNOWN"

abbrev pub ggml_type_block_size : GgmlType → ℕ
ggml_type_block_size f32 = 1
ggml_type_block_size f16 = 1
ggml_type_block_size bf16 = 1
ggml_type_block_size i8 = 1
ggml_type_block_size i16 = 1
ggml_type_block_size i32 = 1
ggml_type_block_size i64 = 1
ggml_type_block_size f64 = 1
ggml_type_block_size q4_0 = 32
ggml_type_block_size q4_1 = 32
ggml_type_block_size q5_0 = 32
ggml_type_block_size q5_1 = 32
ggml_type_block_size q8_0 = 32
ggml_type_block_size q8_1 = 32
ggml_type_block_size q2_k = 256
ggml_type_block_size q3_k = 256
ggml_type_block_size q4_k = 256
ggml_type_block_size q5_k = 256
ggml_type_block_size q6_k = 256
ggml_type_block_size q8_k = 256
ggml_type_block_size iq2_xxs = 256
ggml_type_block_size iq2_xs = 256
ggml_type_block_size iq3_xxs = 256
ggml_type_block_size iq1_s = 256
ggml_type_block_size iq4_nl = 32
ggml_type_block_size iq3_s = 256
ggml_type_block_size iq2_s = 256
ggml_type_block_size iq4_xs = 256
ggml_type_block_size iq1_m = 256
ggml_type_block_size (unnamed raw) = 1

-- `sizeof(uint16_t)` is 2 and `sizeof(float)` is 4; the types that the switch does not name have 1.
abbrev pub ggml_type_type_size : GgmlType → ℕ
ggml_type_type_size f32 = 4
ggml_type_type_size f16 = 2
ggml_type_type_size bf16 = 2
ggml_type_type_size i8 = 1
ggml_type_type_size i16 = 2
ggml_type_type_size i32 = 4
ggml_type_type_size i64 = 8
ggml_type_type_size f64 = 8
ggml_type_type_size q4_0 = 18
ggml_type_type_size q4_1 = 20
ggml_type_type_size q5_0 = 22
ggml_type_type_size q5_1 = 24
ggml_type_type_size q8_0 = 34
ggml_type_type_size q8_1 = 36
ggml_type_type_size q2_k = 256 / 16 * 4 + 256 / 4
ggml_type_type_size q3_k = 256 / 8 + 256 / 4 + 12
ggml_type_type_size q4_k = 2 * 2 + 256 / 2 + 12
ggml_type_type_size q5_k = 2 * 2 + 256 / 2 + 256 / 8 + 12
ggml_type_type_size q6_k = 2 + 256 / 2 + 256 / 4 + 256 / 16
ggml_type_type_size q8_k = 256 + 4
ggml_type_type_size iq2_xxs = 1
ggml_type_type_size iq2_xs = 1
ggml_type_type_size iq3_xxs = 1
ggml_type_type_size iq1_s = 1
ggml_type_type_size iq4_nl = 1
ggml_type_type_size iq3_s = 1
ggml_type_type_size iq2_s = 1
ggml_type_type_size iq4_xs = 1
ggml_type_type_size iq1_m = 1
ggml_type_type_size (unnamed raw) = 1
