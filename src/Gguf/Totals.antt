-- ===== src/Gguf/Totals.antt =====
-- The sums over the tensors in tools/xdna-gguf-info.cpp.
pub mod Laws
use xdna_cpp.Base.{ℕ, ◌+◌, Bool, true, false, Bytes, List, [], ◌∷◌, ◌++◌, ◌==◌, if◌then◌else◌}
use xdna_cpp.Base.Decimal.{to_string}
use xdna_cpp.Base.Text.{bytes, ◌=ˢ◌}
use xdna_cpp.Base.Word.{u32, u64}
use xdna_cpp.Gguf.{ggml_type_name}
use xdna_cpp.Gguf.Tensor.{TensorInfo, is_q4_0}

-- A `std::map` from strings to numbers, without its order.
abbrev pub Counts : Type 0
Counts = List (Bytes × ℕ)

-- `counts[key] += n`, where the numbers wrap around.
unfoldable pub add_to : (wrap : ℕ → ℕ) (key : Bytes) (n : ℕ) → Counts → Counts
add_to wrap key n [] = (key, wrap n) ∷ []
add_to wrap key n (entry ∷ counts) = elim (entry.0 =ˢ key) [
  | true ↦ (entry.0, wrap (entry.1 + n)) ∷ counts
  | false ↦ entry ∷ add_to wrap key n counts
]

pub record Totals : Type 0 where
  pub total_model_bytes : ℕ
  pub xdna_capable_bytes : ℕ
  pub cpu_only_bytes : ℕ
  pub xdna_tensor_count : ℕ
  pub q4_0_tensor_count : ℕ
  pub type_counts : Counts
  pub type_bytes : Counts
  pub shape_histogram : Counts

abbrev pub no_tensors : Totals
no_tensors = record {
  total_model_bytes = 0;
  xdna_capable_bytes = 0;
  cpu_only_bytes = 0;
  xdna_tensor_count = 0;
  q4_0_tensor_count = 0;
  type_counts = [];
  type_bytes = [];
  shape_histogram = [];
}

abbrev pub shape_text : List ℕ → Bytes
shape_text [] = []
shape_text (first ∷ []) = []
shape_text (first ∷ second ∷ dims) = to_string first ++ bytes " x " ++ to_string second

abbrev pub with_shape : TensorInfo → Counts → Counts
with_shape tensor histogram =
    if tensor.n_dims == 2 then add_to u32 (shape_text tensor.dims) 1 histogram else histogram

-- What the loop adds for a tensor.
abbrev pub account : Totals → TensorInfo → Totals
account totals tensor =
    let size = tensor.byte_size in
    let name = ggml_type_name tensor.type in
    record {
      total_model_bytes = u64 (totals.total_model_bytes + size);
      xdna_capable_bytes =
          if tensor.xdna_capable
          then u64 (totals.xdna_capable_bytes + size)
          else totals.xdna_capable_bytes;
      cpu_only_bytes =
          if tensor.xdna_capable then totals.cpu_only_bytes else u64 (totals.cpu_only_bytes + size);
      xdna_tensor_count =
          if tensor.xdna_capable
          then u32 (totals.xdna_tensor_count + 1)
          else totals.xdna_tensor_count;
      q4_0_tensor_count =
          if is_q4_0 tensor.type
          then u32 (totals.q4_0_tensor_count + 1)
          else totals.q4_0_tensor_count;
      type_counts = add_to u32 name 1 totals.type_counts;
      type_bytes = add_to u64 name size totals.type_bytes;
      shape_histogram = with_shape tensor totals.shape_histogram;
    }

abbrev pub account_all : Totals → List TensorInfo → Totals
account_all totals [] = totals
account_all totals (tensor ∷ tensors) = account_all (account totals tensor) tensors
