-- ===== src/Gguf/Inspect/Laws/Report.antt =====
-- What the inspection of a model file in tools/xdna-gguf-info.cpp understands of its metadata and tensors.
use xdna_cpp.Base.{◌≡◌, refl, List, [], ◌∷◌, length, map}
use xdna_cpp.Gguf.{to_type}
use xdna_cpp.Gguf.Inspect.{ModelInfo}
use xdna_cpp.Gguf.Inspect.Laws.{Pair, understood_pair}
use xdna_cpp.Gguf.Inspect.Laws.Fields.{IsUnderstood, understood_pair-IsUnderstood}
use xdna_cpp.Gguf.Tensor.{TensorInfo, tensor_bytes, is_capable}
use xdna_cpp.Gguf.Tensor.Laws.{Entry, info_of}

abbrev pub understood_pairs : ModelInfo → List Pair → ModelInfo
understood_pairs info [] = info
understood_pairs info (pair ∷ pairs) = understood_pairs (understood_pair info pair) pairs

-- The pairs, one after the other.
abbrev pub Understands : ModelInfo → List Pair → ModelInfo → Type 0
Understands info [] final = final ≡ info
Understands info (pair ∷ pairs) final =
    (next : ModelInfo) × IsUnderstood info pair next × Understands next pairs final

pub understood_pairs-Understands :
    (pairs : List Pair) (info : ModelInfo) → Understands info pairs (understood_pairs info pairs)
understood_pairs-Understands [] info = refl
understood_pairs-Understands (pair ∷ pairs) info = (
  understood_pair info pair,
  understood_pair-IsUnderstood info pair,
  understood_pairs-Understands pairs (understood_pair info pair),
)

pub record IsTensor (entry : Entry) (tensor : TensorInfo) : Type 0 where
  pub name : tensor.name ≡ entry.name
  pub n_dims : tensor.n_dims ≡ length entry.dims
  pub dims : tensor.dims ≡ entry.dims
  pub type : tensor.type ≡ to_type entry.raw
  pub offset : tensor.offset ≡ entry.offset
  pub byte_size : tensor.byte_size ≡ tensor_bytes (to_type entry.raw) entry.dims
  pub xdna_capable :
      tensor.xdna_capable ≡ is_capable (to_type entry.raw) (length entry.dims) entry.dims

abbrev pub AreTensors : List Entry → List TensorInfo → Type 0
AreTensors [] [] = Unit
AreTensors [] (tensor ∷ tensors) = ⊥
AreTensors (entry ∷ entries) [] = ⊥
AreTensors (entry ∷ entries) (tensor ∷ tensors) = IsTensor entry tensor × AreTensors entries tensors

pub entries-AreTensors : (entries : List Entry) → AreTensors entries (map info_of entries)
entries-AreTensors [] = tt
entries-AreTensors (entry ∷ entries) = (
  record {
    name = refl;
    n_dims = refl;
    dims = refl;
    type = refl;
    offset = refl;
    byte_size = refl;
    xdna_capable = refl;
  },
  entries-AreTensors entries,
)
