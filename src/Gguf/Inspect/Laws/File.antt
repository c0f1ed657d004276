-- ===== src/Gguf/Inspect/Laws/File.antt =====
-- A whole model file is read back.
use mathlib.Core.List.{append_assoc, append-nil}
use xdna_cpp.Base.{
  ℕ, ◌+◌, ◌^◌, ◌≡◌, ◌<◌, refl, sym, ap, ◌∙◌, false, Bytes, List, [], ◌∷◌, ◌++◌, length, map, some,
  arith, length-append,
}
use xdna_cpp.Base.Text.{bytes}
use xdna_cpp.Gguf.Inspect.{
  ModelInfo, initial_info, read_metadata, Inventory, empty_inventory, read_tensors, add_tensor,
  check_magic, Ending, Analysis, analysed, analyse, inspect_file,
}
use xdna_cpp.Gguf.Inspect.Laws.{Pair, IsPair, encode_pair, understood_pair, read_pair-encode_pair}
use xdna_cpp.Gguf.Inspect.Laws.Report.{
  understood_pairs, Understands, understood_pairs-Understands, AreTensors, entries-AreTensors,
}
use xdna_cpp.Gguf.Totals.Laws.{AreTotals, account_all-AreTotals}
use xdna_cpp.Gguf.Stream.{FileStream}
use xdna_cpp.Gguf.Stream.Laws.{
  Ahead, Ahead-assoc, advanced, encode_number, read_bytes-Ahead, read_number-Ahead,
  advanced_number-Ahead, advanced-Ahead, advanced-add, advanced-zero,
}
use xdna_cpp.Gguf.Tensor.{TensorInfo}
use xdna_cpp.Gguf.Tensor.Laws.{Entry, IsEntry, encode_entry, info_of, read_tensor-encode_entry}
use xdna_cpp.Gguf.Totals.{no_tensors, account_all}

unfoldable pub encode_pairs : List Pair → Bytes
encode_pairs [] = []
encode_pairs (pair ∷ pairs) = encode_pair pair ++ encode_pairs pairs

unfoldable pub encode_entries : List Entry → Bytes
encode_entries [] = []
encode_entries (entry ∷ entries) = encode_entry entry ++ encode_entries entries

abbrev pub ArePairs : ℕ → List Pair → Type 0
ArePairs fuel [] = Unit
ArePairs fuel (pair ∷ pairs) = IsPair fuel pair × ArePairs fuel pairs

abbrev pub AreEntries : List Entry → Type 0
AreEntries [] = Unit
AreEntries (entry ∷ entries) = IsEntry entry × AreEntries entries

read_metadata-encode_pairs :
    (pairs : List Pair) (fuel : ℕ) (info : ModelInfo) (f : FileStream) (rest : Bytes)
    → ArePairs fuel pairs
    → Ahead f (encode_pairs pairs ++ rest)
    → f.position + length (encode_pairs pairs) < 2 ^ 63
    → read_metadata (length pairs) fuel info f
      ≡ some (understood_pairs info pairs, advanced (length (encode_pairs pairs)) f)
unfolding read_metadata encode_pairs
read_metadata-encode_pairs [] fuel info f rest valid ahead small =
    ap (λ g. some (info, g)) (sym (advanced-zero f ahead.good))
read_metadata-encode_pairs (pair ∷ pairs) fuel info f rest (valid, valids) ahead small =
    let total = length-append (encode_pair pair) (encode_pairs pairs) in
    let a₀ = Ahead-assoc f (encode_pair pair) (encode_pairs pairs) rest ahead in
    let a₁ = advanced-Ahead f (encode_pair pair) (encode_pairs pairs ++ rest) a₀ in
    rw (
      read_metadata,
      read_pair-encode_pair pair fuel info f (encode_pairs pairs ++ rest) valid a₀
          (omega (arith, small, total)),
      read_metadata-encode_pairs pairs fuel (understood_pair info pair)
          (advanced (length (encode_pair pair)) f) rest valids a₁ (omega (arith, small, total)),
      total,
      advanced-add (length (encode_pair pair)) (length (encode_pairs pairs)) f,
    )

-- The inventory with more tensors behind those that it has.
abbrev extended : Inventory → List TensorInfo → Inventory
extended inventory tensors = record {
  tensors = inventory.tensors ++ tensors;
  totals = account_all inventory.totals tensors;
}

read_tensors-encode_entries :
    (entries : List Entry) (inventory : Inventory) (f : FileStream) (rest : Bytes)
    → AreEntries entries
    → Ahead f (encode_entries entries ++ rest)
    → (read_tensors (length entries) inventory f).0 ≡ extended inventory (map info_of entries)
unfolding read_tensors encode_entries
read_tensors-encode_entries [] inventory f rest valid ahead =
    ap (λ tensors. record inventory { tensors = tensors }) (sym (append-nil inventory.tensors))
read_tensors-encode_entries (entry ∷ entries) inventory f rest (valid, valids) ahead =
    let a₀ = Ahead-assoc f (encode_entry entry) (encode_entries entries) rest ahead in
    let (reads, a₁) = read_tensor-encode_entry entry f (encode_entries entries ++ rest) valid a₀ in
    ap
      (λ (r : TensorInfo × FileStream).
        (read_tensors (length entries) (add_tensor inventory r.0) r.1).0)
      reads
    ∙ read_tensors-encode_entries entries (add_tensor inventory (info_of entry))
        (advanced (length (encode_entry entry)) f) rest valids a₁
    ∙ ap
        (λ tensors. record (extended (add_tensor inventory (info_of entry)) (map info_of entries)) {
          tensors = tensors;
        })
        (append_assoc inventory.tensors (info_of entry ∷ []) (map info_of entries))

-- A model file: the header, the metadata, the tensors and their data.
pub record ModelFile : Type 0 where
  pub version : ℕ
  pub pairs : List Pair
  pub entries : List Entry
  pub data_bytes : Bytes

abbrev behind_magic : ModelFile → Bytes
behind_magic file =
    encode_number 4 file.version
    ++ (encode_number 8 (length file.entries)
        ++ (encode_number 8 (length file.pairs)
            ++ (encode_pairs file.pairs ++ (encode_entries file.entries ++ file.data_bytes))))

unfoldable pub encode_file : ModelFile → Bytes
encode_file file = bytes "GGUF" ++ behind_magic file

pub record IsModelFile (fuel : ℕ) (file : ModelFile) : Type 0 where
  pub version_word : file.version < 2 ^ 32
  pub pairs_word : length file.pairs < 2 ^ 64
  pub entries_word : length file.entries < 2 ^ 64
  pub pairs_valid : ArePairs fuel file.pairs
  pub entries_valid : AreEntries file.entries
  pub metadata_small : 24 + length (encode_pairs file.pairs) < 2 ^ 63

-- What the program reports of a model file.
abbrev analysis_of_file : ModelFile → Analysis
analysis_of_file file = record {
  version = file.version;
  tensor_count = length file.entries;
  metadata_kv_count = length file.pairs;
  info = understood_pairs initial_info file.pairs;
  inventory = record {
    tensors = map info_of file.entries;
    totals = account_all no_tensors (map info_of file.entries);
  };
}

abbrev report_of : ModelFile → Ending
report_of file = analysed (analysis_of_file file)

analyse-behind_magic :
    (file : ModelFile) (fuel : ℕ) (f : FileStream)
    → IsModelFile fuel file
    → f.position ≡ 4
    → Ahead f (behind_magic file)
    → analyse fuel f ≡ some (report_of file)
unfolding analyse
analyse-behind_magic file fuel f valid start ahead =
    let rest₃ = encode_entries file.entries ++ file.data_bytes in
    let rest₂ = encode_pairs file.pairs ++ rest₃ in
    let rest₁ = encode_number 8 (length file.pairs) ++ rest₂ in
    let rest₀ = encode_number 8 (length file.entries) ++ rest₁ in
    let f₁ = advanced 4 f in
    let f₂ = advanced 8 f₁ in
    let f₃ = advanced 8 f₂ in
    let a₁ = advanced_number-Ahead 4 file.version f rest₀ ahead in
    let a₂ = advanced_number-Ahead 8 (length file.entries) f₁ rest₁ a₁ in
    let a₃ = advanced_number-Ahead 8 (length file.pairs) f₂ rest₂ a₂ in
    let a₄ = advanced-Ahead f₃ (encode_pairs file.pairs) rest₃ a₃ in
    rw (
      read_number-Ahead 4 file.version 0 f rest₀ (omega (arith, valid.version_word)) (omega arith)
          ahead,
      read_number-Ahead 8 (length file.entries) 0 f₁ rest₁ (omega (arith, valid.entries_word))
          (omega arith) a₁,
      read_number-Ahead 8 (length file.pairs) 0 f₂ rest₂ (omega (arith, valid.pairs_word))
          (omega arith) a₂,
      read_metadata-encode_pairs file.pairs fuel initial_info f₃ rest₃ valid.pairs_valid a₃
          (omega (arith, start, valid.metadata_small)),
      read_tensors-encode_entries file.entries empty_inventory
          (advanced (length (encode_pairs file.pairs)) f₃) file.data_bytes valid.entries_valid a₄,
    )

-- The inspection gives that report.
inspect_file-report_of :
    (file : ModelFile) (fuel : ℕ) (uninitialized : Bytes)
    → IsModelFile fuel file
    → inspect_file fuel uninitialized
        (record { content = encode_file file; position = 0; failed = false })
      ≡ some (report_of file)
unfolding inspect_file encode_file
inspect_file-report_of file fuel uninitialized valid =
    let f : FileStream = record { content = encode_file file; position = 0; failed = false } in
    let ahead : Ahead f (bytes "GGUF" ++ behind_magic file) = record { good = refl; left = refl } in
    ap (check_magic fuel uninitialized)
      (read_bytes-Ahead f (bytes "GGUF") (behind_magic file) ahead)
    ∙ (analyse-behind_magic file fuel (advanced 4 f) valid refl
        (advanced-Ahead f (bytes "GGUF") (behind_magic file) ahead))

-- What is reported of a file: the header, what its pairs set from an unknown architecture and zeros, its tensors in
-- order, and their totals.
pub record IsReport (file : ModelFile) (analysis : Analysis) : Type 0 where
  pub version : analysis.version ≡ file.version
  pub tensor_count : analysis.tensor_count ≡ length file.entries
  pub metadata_kv_count : analysis.metadata_kv_count ≡ length file.pairs
  pub info :
      Understands
        (record {
          arch = bytes "unknown";
          block_count = 0;
          embedding_length = 0;
          feed_forward_length = 0;
          head_count = 0;
          head_count_kv = 0;
        })
        file.pairs
        analysis.info
  pub tensors : AreTensors file.entries analysis.inventory.tensors
  pub totals : AreTotals analysis.inventory.totals analysis.inventory.tensors

-- For a model file whose numbers have the sizes of their types and fit into their fields, whose
-- names, keys and strings of the metadata have at most 1000000 bytes, whose values have fewer
-- arrays than the fuel, and whose metadata end below 2 ^ 63: the inspection of its bytes returns,
-- and reports the version and the counts; the architecture and the five numbers, each as the pairs
-- with its own keys set it, in order, from an unknown architecture and zeros; every tensor in
-- order; and totals that are the sums over these tensors.
pub inspect_file-encode_file :
    (file : ModelFile) (fuel : ℕ) (uninitialized : Bytes)
    → IsModelFile fuel file
    → (analysis : Analysis) × (inspect_file fuel uninitialized
          (record { content = encode_file file; position = 0; failed = false })
        ≡ some (analysed analysis))
      × IsReport file analysis
inspect_file-encode_file file fuel uninitialized valid = (
  analysis_of_file file,
  inspect_file-report_of file fuel uninitialized valid,
  record {
    version = refl;
    tensor_count = refl;
    metadata_kv_count = refl;
    info = understood_pairs-Understands file.pairs initial_info;
    tensors = entries-AreTensors file.entries;
    totals = account_all-AreTotals (map info_of file.entries);
  },
)
