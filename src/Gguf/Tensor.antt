-- ===== src/Gguf/Tensor.antt =====
-- `TensorInfo` and the reading of one tensor in tools/xdna-gguf-info.cpp.
pub mod Laws
use xdna_cpp.Base.{
  ℕ, zero, suc, ◌*◌, ◌/◌, ◌%◌, Bool, true, false, ◌&&◌, Bytes, List, [], ◌∷◌, none, some, get_elem?,
  ◌==◌,
}
use xdna_cpp.Base.Word.{u64}
use xdna_cpp.Gguf.{GgmlType, q4_0, to_type, ggml_type_block_size, ggml_type_type_size}
use xdna_cpp.Gguf.Stream.{FileStream, read_number, read_string}

pub record TensorInfo : Type 0 where
  pub name : Bytes
  pub n_dims : ℕ
  pub dims : List ℕ
  pub type : GgmlType
  pub offset : ℕ
  pub byte_size : ℕ
  pub xdna_capable : Bool

-- The loop that reads the dimensions; a new vector has zeros.
unfoldable pub read_dims : ℕ → FileStream → List ℕ × FileStream
read_dims zero f = ([], f)
read_dims (suc left) f =
    let (dim, f') = read_number 8 0 f in let (dims, f'') = read_dims left f' in (dim ∷ dims, f'')

-- `n_elements`, in 64 bits
unfoldable pub elements_from : (product : ℕ) → List ℕ → ℕ
elements_from product [] = product
elements_from product (dim ∷ dims) = elements_from (u64 (product * dim)) dims

abbrev pub n_elements : List ℕ → ℕ
n_elements dims = elements_from 1 dims

abbrev pub tensor_bytes : GgmlType → List ℕ → ℕ
tensor_bytes type dims =
    u64 (n_elements dims / ggml_type_block_size type * ggml_type_type_size type)

abbrev pub is_q4_0 : GgmlType → Bool
is_q4_0 q4_0 = true
is_q4_0 other = false

-- `t.dims[0] % 32 == 0`, behind the test of `n_dims`
abbrev pub first_is_whole : List ℕ → Bool
first_is_whole [] = false
first_is_whole (dim ∷ dims) = dim % 32 == 0

abbrev pub is_capable : GgmlType → (n_dims : ℕ) → List ℕ → Bool
is_capable type n_dims dims = is_q4_0 type && n_dims == 2 && first_is_whole dims

abbrev pub tensor_info :
    (name : Bytes) (n_dims : ℕ) (dims : List ℕ) (type : GgmlType) (offset : ℕ) → TensorInfo
tensor_info name n_dims dims type offset = record {
  name = name;
  n_dims = n_dims;
  dims = dims;
  type = type;
  offset = offset;
  byte_size = tensor_bytes type dims;
  xdna_capable = is_capable type n_dims dims;
}

unfoldable pub read_tensor : FileStream → TensorInfo × FileStream
read_tensor f =
    let (name, f₁) = read_string f in
    let (n_dims, f₂) = read_number 4 0 f₁ in
    let (dims, f₃) = read_dims n_dims f₂ in
    let (type_raw, f₄) = read_number 4 0 f₃ in
    let (offset, f₅) = read_number 8 0 f₄ in
    (tensor_info name n_dims dims (to_type type_raw) offset, f₅)
