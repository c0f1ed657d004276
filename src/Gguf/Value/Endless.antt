-- ===== src/Gguf/Value/Endless.antt =====
-- A file on which the recursion of `skip_value` in tools/xdna-gguf-info.cpp does not end.
use xdna_cpp.Base.{ℕ, zero, suc, ◌-◌, ◌^◌, ◌≡◌, refl, false, Bytes, ◌++◌, none}
use xdna_cpp.Gguf.Stream.{FileStream, read_bytes, read_number, seek_cur, overwritten}
use xdna_cpp.Gguf.Stream.Laws.{encode_number}
use xdna_cpp.Gguf.Value.{skip_value, skip_each, array_type, string_type}

-- An array of two arrays, the first of one string. The length of the string leads back to the start.
abbrev pub endless_content : Bytes
endless_content =
    encode_number 4 array_type
    ++ encode_number 8 2
    ++ encode_number 4 string_type
    ++ encode_number 8 1
    ++ encode_number 8 (2 ^ 64 - 32)

abbrev pub endless : (rest : Bytes) → FileStream
endless rest = record { content = endless_content ++ rest; position = 0; failed = false }

-- On an array of two arrays whose first element is a string with a length that leads back to the
-- start, whatever stands behind these 32 bytes, `skip_value` exceeds any fuel: the calls of the
-- source nest without end.
pub skip_value-endless :
    (rest : Bytes) (fuel : ℕ) → skip_value fuel array_type (endless rest) ≡ none
unfolding skip_value skip_each read_number read_bytes seek_cur overwritten encode_number
skip_value-endless rest zero = refl
skip_value-endless rest (suc zero) = refl
skip_value-endless rest (suc (suc zero)) = refl
skip_value-endless rest (suc (suc (suc fuel))) = rw (skip_value-endless rest (suc (suc fuel)))
