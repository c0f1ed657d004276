-- ===== src/Tests/Models.antt =====
-- The inspection of model files at concrete inputs.
use xdna_cpp.Base.{inl, inr, ◌≡◌, ◌↔◌, refl, true, false, [], ◌∷◌, ◌++◌, length, some, none, arith}
use xdna_cpp.Base.Outcome.{done}
use xdna_cpp.Base.Text.{bytes}
use xdna_cpp.Gguf.{q4_0}
use xdna_cpp.Gguf.Inspect.{Analysis, analysed, inspect_file, gguf_info_main, usage}
use xdna_cpp.Gguf.Inspect.Laws.{encode_pair}
use xdna_cpp.Gguf.Inspect.Laws.File.{
  ModelFile, encode_file, encode_pairs, IsReport, inspect_file-encode_file,
}
use xdna_cpp.Gguf.Stream.{FileStream}
use xdna_cpp.Gguf.Stream.Laws.{Ahead, advanced, encode_number, encode_string}
use xdna_cpp.Gguf.Tensor.{is_capable, tensor_bytes, tensor_info}
use xdna_cpp.Gguf.Tensor.Laws.{is_capable-validate_matrix}
use xdna_cpp.Gguf.Totals.{account_all, no_tensors}
use xdna_cpp.Gguf.Totals.Laws.{AreTotals, account_all-AreTotals}
use xdna_cpp.Gguf.Value.{skip_value, array_type, uint8_type, uint32_type}
use xdna_cpp.Gguf.Value.Endless.{endless, skip_value-endless}
use xdna_cpp.Gguf.Value.Laws.{
  GgufValue, number, text, array, empty, follow, encode, type_of, skip_value-encode,
}
use xdna_cpp.Q4.Shape.{validate_matrix}

-- An array of two bytes.
abbrev two_bytes : GgufValue
two_bytes =
    array uint8_type
      (follow (number uint8_type (5 ∷ [])) (follow (number uint8_type (6 ∷ [])) empty))

abbrev at_two_bytes : FileStream
at_two_bytes = record { content = encode two_bytes ++ 9 ∷ []; position = 0; failed = false }

skip_value-encode_example :
    (skip_value 2 (type_of two_bytes) at_two_bytes
      ≡ some (advanced (length (encode two_bytes)) at_two_bytes))
    × Ahead (advanced (length (encode two_bytes)) at_two_bytes) (9 ∷ [])
unfolding encode_number
skip_value-encode_example =
    skip_value-encode two_bytes 2 at_two_bytes (9 ∷ []) (omega arith)
      (omega arith, omega arith, (refl, inl (refl, refl), (refl, inl (refl, refl), tt)))
      (record { good = refl; left = refl }) (omega arith)

abbrev small_model : ModelFile
small_model = record {
  version = 3;
  pairs =
      (record { key = bytes "general.architecture"; value = text (bytes "qwen") })
      ∷ (record { key = bytes "qwen.block_count"; value = number uint32_type (2 ∷ 0 ∷ 0 ∷ 0 ∷ []) })
      ∷ (record { key = bytes "bytes"; value = two_bytes })
      ∷ [];
  entries =
      (record { name = bytes "w"; dims = 64 ∷ 3 ∷ []; raw = 2; offset = 0 })
      ∷ (record { name = bytes "b"; dims = 7 ∷ []; raw = 0; offset = 128 })
      ∷ [];
  data_bytes = [];
}

inspect_file-encode_file_example :
    (analysis : Analysis) × (inspect_file 2 []
        (record { content = encode_file small_model; position = 0; failed = false })
      ≡ some (analysed analysis))
    × IsReport small_model analysis
unfolding encode_pairs encode_pair encode_number encode_string
inspect_file-encode_file_example = inspect_file-encode_file small_model 2 [] (record {
  version_word = omega arith;
  pairs_word = omega arith;
  entries_word = omega arith;
  pairs_valid = (
    record {
      key_short = omega arith;
      type_word = omega arith;
      valid = omega arith;
      fueled = omega arith;
      arch_short = omega arith;
    },
    (
      record {
        key_short = omega arith;
        type_word = omega arith;
        valid = inr (inr (inr (inr (inr (inl (refl, refl))))));
        fueled = omega arith;
        arch_short = tt;
      },
      (
        record {
          key_short = omega arith;
          type_word = omega arith;
          valid =
              (omega arith, omega arith, (refl, inl (refl, refl), (refl, inl (refl, refl), tt)));
          fueled = omega arith;
          arch_short = tt;
        },
        tt,
      ),
    ),
  );
  entries_valid = (
    record {
      name_short = omega arith;
      few_dims = omega arith;
      dim_words = (omega arith, (omega arith, tt));
      raw_word = omega arith;
      offset_word = omega arith;
    },
    (
      record {
        name_short = omega arith;
        few_dims = omega arith;
        dim_words = (omega arith, tt);
        raw_word = omega arith;
        offset_word = omega arith;
      },
      tt,
    ),
  );
  metadata_small = omega arith;
})

account_all-AreTotals_example :
    AreTotals
      (account_all no_tensors (tensor_info (bytes "w") 2 (64 ∷ 3 ∷ []) q4_0 0 ∷ []))
      (tensor_info (bytes "w") 2 (64 ∷ 3 ∷ []) q4_0 0 ∷ [])
account_all-AreTotals_example =
    account_all-AreTotals (tensor_info (bytes "w") 2 (64 ∷ 3 ∷ []) q4_0 0 ∷ [])

is_capable-validate_matrix_example :
    (is_capable q4_0 2 (64 ∷ 3 ∷ []) ≡ true)
    ↔ (validate_matrix 3 64 (tensor_bytes q4_0 (64 ∷ 3 ∷ [])) ≡ done tt)
is_capable-validate_matrix_example =
    is_capable-validate_matrix 64 3 (omega arith) (omega arith) (omega arith)

skip_value-endless_example : skip_value 1000 array_type (endless (1 ∷ [])) ≡ none
skip_value-endless_example = skip_value-endless (1 ∷ []) 1000

gguf_info_main_test : gguf_info_main 1 [] (λ path. none) [] ≡ some usage
unfolding gguf_info_main
gguf_info_main_test = refl
