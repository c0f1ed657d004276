-- ===== src/Gate1/Image.antt =====
-- Reads of the xclbin image, and its section table: the first part of src/xdna-gate1.cpp.
pub mod Bounds
use xdna_cpp.Base.{
  ℕ, zero, suc, ◌+◌, ◌-◌, ◌*◌, ◌/◌, ◌^◌, Bool, true, false, ◌||◌, Bytes, List, [], ◌∷◌, Option,
  none, some, ◌==◌, ltb, if◌then◌else◌, length, take, drop, bit_or,
}
use xdna_cpp.Base.Loop.{for_range}
use xdna_cpp.Base.Outcome.{Outcome, done, fault, at, ◌>>=◌}
use xdna_cpp.Base.Word.{shl, size_max}

-- Offsets of the axlf header and its section table, in bytes.
abbrev pub axlf_header_length_offset : ℕ
axlf_header_length_offset = 304

abbrev pub axlf_header_mode_offset : ℕ
axlf_header_mode_offset = 304 + 28

abbrev pub axlf_header_action_mask_offset : ℕ
axlf_header_action_mask_offset = 304 + 30

abbrev pub axlf_header_platform_offset : ℕ
axlf_header_platform_offset = 304 + 48

abbrev pub axlf_header_section_count_offset : ℕ
axlf_header_section_count_offset = 304 + 144

abbrev pub axlf_sections_offset : ℕ
axlf_sections_offset = 456

abbrev pub axlf_section_size : ℕ
axlf_section_size = 40

module _ (image : Bytes) where
  pub read_u16 : ℕ → Outcome ⊥ ℕ
  read_u16 offset = do
    low ← at image offset
    high ← at image (offset + 1)
    done (bit_or low (shl high 8))

  pub read_u32 : ℕ → Outcome ⊥ ℕ
  read_u32 offset = do
    a ← at image offset
    b ← at image (offset + 1)
    c ← at image (offset + 2)
    d ← at image (offset + 3)
    done (bit_or (bit_or (bit_or a (shl b 8)) (shl c 16)) (shl d 24))

  pub read_u64 : ℕ → Outcome ⊥ ℕ
  read_u64 offset =
      for_range 8 0
        (λ byte value. at image (offset + byte) >>= λ b. done (bit_or value (shl b (byte * 8)))) 0

-- The text up to the first zero byte.
abbrev until_zero : Bytes → Bytes
until_zero [] = []
until_zero (c ∷ text) = if c == 0 then [] else c ∷ until_zero text

-- `data.begin() + offset` up to `data.begin() + offset + size`, which has to lie inside the vector.
abbrev pub range : Bytes → (offset size : ℕ) → Outcome ⊥ Bytes
range image offset size =
    if ltb (length image) (offset + size) then fault else done (take size (drop offset image))

pub fixed_string : Bytes → (offset size : ℕ) → Outcome ⊥ Bytes
fixed_string image offset size = range image offset size >>= λ text. done (until_zero text)

pub record Section : Type 0 where
  pub kind : ℕ
  pub offset : ℕ
  pub size : ℕ

-- A section's bytes do not all lie in the image.
abbrev pub is_outside : Bytes → (section_offset section_size : ℕ) → Bool
is_outside image section_offset section_size =
    ltb (length image) section_offset || ltb (length image - section_offset) section_size

-- Where entry `index` of the section table starts.
abbrev pub section_entry : ℕ → ℕ
section_entry index = axlf_sections_offset + index * axlf_section_size

module _ (image : Bytes) where
  -- The loop of `find_section` over the remaining entries.
  pub find_section_from : (kind left index : ℕ) → Outcome ⊥ (Option Section)
  find_section_from kind zero index = done none
  find_section_from kind (suc left) index = do
    entry_kind ← read_u32 image (section_entry index)
    elim (entry_kind == kind) [
      | false ↦ find_section_from kind left (index + 1)
      | true ↦ do
        section_offset ← read_u64 image (section_entry index + 24)
        section_size ← read_u64 image (section_entry index + 32)
        done (
            if is_outside image section_offset section_size
              || ltb size_max section_offset
              || ltb size_max section_size
            then none
            else some (record { kind = kind; offset = section_offset; size = section_size }))
    ]

  pub find_section : (kind count : ℕ) → Outcome ⊥ (Option Section)
  find_section kind count = find_section_from kind count 0

  pub section_text : Section → Outcome ⊥ Bytes
  section_text section = range image section.offset section.size

  -- The loop of `parse_gate1_metadata` over the section table: no section is outside.
  pub sections_inside : (left index : ℕ) → Outcome ⊥ Bool
  sections_inside zero index = done true
  sections_inside (suc left) index = do
    section_offset ← read_u64 image (section_entry index + 24)
    section_size ← read_u64 image (section_entry index + 32)
    elim (is_outside image section_offset section_size) [
      | true ↦ done false
      | false ↦ sections_inside left (index + 1)
    ]
