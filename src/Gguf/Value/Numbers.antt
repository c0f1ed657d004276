-- ===== src/Gguf/Value/Numbers.antt =====
-- The numbers of the metadata in tools/xdna-gguf-info.cpp with their sizes.
use xdna_cpp.Base.{ℕ, ◌≡◌, refl, sym, ap, ◌∙◌, [], List, ◌∷◌, ◌⊎◌, inl, inr}
use xdna_cpp.Gguf.Value.{
  skip_bytes, skip_of, uint8_type, int8_type, uint16_type, int16_type, uint32_type, int32_type,
  float32_type, bool_type, uint64_type, int64_type, float64_type,
}

-- The types of the format that are numbers, each with its size in bytes.
abbrev pub number_sizes : List (ℕ × ℕ)
number_sizes =
    (uint8_type, 1)
    ∷ (int8_type, 1)
    ∷ (bool_type, 1)
    ∷ (uint16_type, 2)
    ∷ (int16_type, 2)
    ∷ (uint32_type, 4)
    ∷ (int32_type, 4)
    ∷ (float32_type, 4)
    ∷ (uint64_type, 8)
    ∷ (int64_type, 8)
    ∷ (float64_type, 8)
    ∷ []

abbrev pub IsListed : List (ℕ × ℕ) → (type size : ℕ) → Type 0
IsListed [] type size = ⊥
IsListed (entry ∷ entries) type size =
    ((type ≡ entry.0) × (size ≡ entry.1)) ⊎ IsListed entries type size

abbrev AreSkipped : List (ℕ × ℕ) → Type 0
AreSkipped [] = Unit
AreSkipped (entry ∷ entries) = (skip_of entry.0 ≡ skip_bytes entry.1) × AreSkipped entries

IsListed-skip_of :
    (entries : List (ℕ × ℕ)) (type size : ℕ)
    → AreSkipped entries
    → IsListed entries type size
    → skip_of type ≡ skip_bytes size
IsListed-skip_of [] type size skips never = absurd never
IsListed-skip_of (entry ∷ entries) type size (skip, skips) (inl (same, sized)) =
    ap skip_of same ∙ skip ∙ ap skip_bytes (sym sized)
IsListed-skip_of (entry ∷ entries) type size (skip, skips) (inr later) =
    IsListed-skip_of entries type size skips later

-- A number is skipped by its size.
pub number-skip_of :
    (type size : ℕ) → IsListed number_sizes type size → skip_of type ≡ skip_bytes size
number-skip_of type size listed =
    IsListed-skip_of number_sizes type size
      (refl, (refl, (refl, (refl, (refl, (refl, (refl, (refl, (refl, (refl, (refl, tt)))))))))))
      listed
