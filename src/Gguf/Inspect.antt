-- ===== src/Gguf/Inspect.antt =====
-- `main` of tools/xdna-gguf-info.cpp: the header, the metadata and the tensors of a model file. What it prints of them
-- is the result here.
pub mod Laws
use xdna_cpp.Base.{
  ℕ, zero, suc, Bool, true, false, ◌&&◌, ◌||◌, Bytes, List, [], ◌∷◌, ◌++◌, Option, none, some, ◌==◌,
  if◌then◌else◌, length, take, drop,
}
use xdna_cpp.Base.Text.{bytes, ◌=ˢ◌}
use xdna_cpp.Gguf.Stream.{FileStream, read_bytes, read_number, read_string}
use xdna_cpp.Gguf.Tensor.{TensorInfo, read_tensor}
use xdna_cpp.Gguf.Totals.{Totals, no_tensors, account}
use xdna_cpp.Gguf.Value.{skip_value, uint32_type, string_type}

-- The architecture variables of `main`.
pub record ModelInfo : Type 0 where
  pub arch : Bytes
  pub block_count : ℕ
  pub embedding_length : ℕ
  pub feed_forward_length : ℕ
  pub head_count : ℕ
  pub head_count_kv : ℕ

abbrev pub initial_info : ModelInfo
initial_info = record {
  arch = bytes "unknown";
  block_count = 0;
  embedding_length = 0;
  feed_forward_length = 0;
  head_count = 0;
  head_count_kv = 0;
}

-- The branches of the metadata loop.
pub data Field : Type 0 where
  arch_field : Field
  block_count_field : Field
  embedding_length_field : Field
  feed_forward_length_field : Field
  head_count_field : Field
  head_count_kv_field : Field
  other_field : Field

-- `if (matches && val_type == wanted) { field } else { other }`
unfoldable pub branch : (matches : Bool) (type wanted : ℕ) (field other : Field) → Field
branch matches type wanted field other = if matches && type == wanted then field else other

unfoldable pub field_of : (arch key : Bytes) (type : ℕ) → Field
field_of arch key type = branch (key =ˢ bytes "general.architecture") type string_type arch_field (
    branch (key =ˢ (arch ++ bytes ".block_count") || key =ˢ bytes "general.block_count") type
      uint32_type block_count_field
      (branch
        (key =ˢ (arch ++ bytes ".embedding_length") || key =ˢ bytes "general.embedding_length") type
        uint32_type embedding_length_field
        (branch
          (key =ˢ (arch ++ bytes ".feed_forward_length")
            || key =ˢ bytes "general.feed_forward_length")
          type uint32_type feed_forward_length_field
          (branch (key =ˢ (arch ++ bytes ".attention.head_count")) type uint32_type head_count_field
            (branch (key =ˢ (arch ++ bytes ".attention.head_count_kv")) type uint32_type
              head_count_kv_field other_field)))))

-- The variable that a field overwrites.
abbrev pub field_value : Field → ModelInfo → ℕ
field_value block_count_field info = info.block_count
field_value embedding_length_field info = info.embedding_length
field_value feed_forward_length_field info = info.feed_forward_length
field_value head_count_field info = info.head_count
field_value head_count_kv_field info = info.head_count_kv
field_value arch_field info = 0
field_value other_field info = 0

abbrev pub set_field : Field → ModelInfo → ℕ → ModelInfo
set_field block_count_field info n = record info { block_count = n }
set_field embedding_length_field info n = record info { embedding_length = n }
set_field feed_forward_length_field info n = record info { feed_forward_length = n }
set_field head_count_field info n = record info { head_count = n }
set_field head_count_kv_field info n = record info { head_count_kv = n }
set_field arch_field info n = info
set_field other_field info n = info

abbrev pub read_number_field : Field → ModelInfo → FileStream → ModelInfo × FileStream
read_number_field field info f =
    let (n, f') = read_number 4 (field_value field info) f in (set_field field info n, f')

abbrev skipped : ModelInfo → Option FileStream → Option (ModelInfo × FileStream)
skipped info none = none
skipped info (some f) = some (info, f)

-- One branch: read the value into its variable, or skip it.
unfoldable pub read_field :
    Field → (fuel type : ℕ) → ModelInfo → FileStream → Option (ModelInfo × FileStream)
read_field arch_field fuel type info f =
    let (text, f') = read_string f in some (record info { arch = text }, f')
read_field other_field fuel type info f = skipped info (skip_value fuel type f)
read_field block_count_field fuel type info f = some (read_number_field block_count_field info f)
read_field embedding_length_field fuel type info f =
    some (read_number_field embedding_length_field info f)
read_field feed_forward_length_field fuel type info f =
    some (read_number_field feed_forward_length_field info f)
read_field head_count_field fuel type info f = some (read_number_field head_count_field info f)
read_field head_count_kv_field fuel type info f =
    some (read_number_field head_count_kv_field info f)

unfoldable pub read_pair : (fuel : ℕ) → ModelInfo → FileStream → Option (ModelInfo × FileStream)
read_pair fuel info f =
    let (key, f') = read_string f in
    let (type, f'') = read_number 4 0 f' in
    read_field (field_of info.arch key type) fuel type info f''

-- The loop over the metadata; the fuel is that of `skip_value`.
unfoldable pub read_metadata :
    (left fuel : ℕ) → ModelInfo → FileStream → Option (ModelInfo × FileStream)
read_metadata zero fuel info f = some (info, f)
read_metadata (suc left) fuel info f = elim (read_pair fuel info f) [
  | none ↦ none
  | some (info', f') ↦ read_metadata left fuel info' f'
]

pub record Inventory : Type 0 where
  pub tensors : List TensorInfo
  pub totals : Totals

abbrev pub empty_inventory : Inventory
empty_inventory = record { tensors = []; totals = no_tensors }

abbrev pub add_tensor : Inventory → TensorInfo → Inventory
add_tensor inventory tensor = record {
  tensors = inventory.tensors ++ tensor ∷ [];
  totals = account inventory.totals tensor;
}

-- The loop over the tensors.
unfoldable pub read_tensors : (left : ℕ) → Inventory → FileStream → Inventory × FileStream
read_tensors zero inventory f = (inventory, f)
read_tensors (suc left) inventory f =
    let (tensor, f') = read_tensor f in read_tensors left (add_tensor inventory tensor) f'

pub record Analysis : Type 0 where
  pub version : ℕ
  pub tensor_count : ℕ
  pub metadata_kv_count : ℕ
  pub info : ModelInfo
  pub inventory : Inventory

-- How the program ends.
pub data Ending : Type 0 where
  usage : Ending
  cannot_open : Ending
  bad_magic : (magic : Bytes) → Ending
  analysed : Analysis → Ending

abbrev pub ending_code : Ending → ℕ
ending_code usage = 1
ending_code cannot_open = 1
ending_code (bad_magic magic) = 1
ending_code (analysed analysis) = 0

abbrev analysis_of :
    (version tensor_count metadata_kv_count : ℕ) → Option (ModelInfo × FileStream) → Option Ending
analysis_of version tensor_count metadata_kv_count none = none
analysis_of version tensor_count metadata_kv_count (some (info, f)) = some (
    analysed (record {
      version = version;
      tensor_count = tensor_count;
      metadata_kv_count = metadata_kv_count;
      info = info;
      inventory = (read_tensors tensor_count empty_inventory f).0;
    }))

-- Behind the magic.
unfoldable pub analyse : (fuel : ℕ) → FileStream → Option Ending
analyse fuel f =
    let (version, f₁) = read_number 4 0 f in
    let (tensor_count, f₂) = read_number 8 0 f₁ in
    let (metadata_kv_count, f₃) = read_number 8 0 f₂ in
    analysis_of version tensor_count metadata_kv_count
      (read_metadata metadata_kv_count fuel initial_info f₃)

-- The magic's bytes that are not read are those that stood in the variable.
abbrev pub check_magic : (fuel : ℕ) (uninitialized : Bytes) → Bytes × FileStream → Option Ending
check_magic fuel uninitialized (got, f) =
    let magic = take 4 (got ++ drop (length got) uninitialized) in
    elim (magic =ˢ bytes "GGUF") [ true ↦ analyse fuel f | false ↦ some (bad_magic magic) ]

unfoldable pub inspect_file : (fuel : ℕ) (uninitialized : Bytes) → FileStream → Option Ending
inspect_file fuel uninitialized f = check_magic fuel uninitialized (read_bytes 4 f)

abbrev inspect_opened :
    (fuel : ℕ) (uninitialized : Bytes) → (content : Option Bytes) → Option Ending
inspect_opened fuel uninitialized none = some cannot_open
inspect_opened fuel uninitialized (some content) =
    inspect_file fuel uninitialized (record { content = content; position = 0; failed = false })

-- The file system gives the bytes of a path, or nothing where it cannot be opened.
unfoldable pub gguf_info_main :
    (fuel : ℕ) (uninitialized : Bytes) (file : Bytes → Option Bytes) (arguments : List Bytes)
    → Option Ending
gguf_info_main fuel uninitialized file [] = some usage
gguf_info_main fuel uninitialized file (path ∷ arguments) =
    inspect_opened fuel uninitialized (file path)
