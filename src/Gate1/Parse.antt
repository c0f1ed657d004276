-- ===== src/Gate1/Parse.antt =====
-- `parse_gate1_metadata` of src/xdna-gate1.cpp, in the order of its reads and early returns.
pub mod Total
use xdna_cpp.Base.{
  ℕ, ◌+◌, ◌-◌, ◌*◌, ◌/◌, Bool, true, false, not, ◌&&◌, ◌||◌, Bytes, [], ◌∷◌, Option, none, some,
  ◌==◌, ltb, leb, if◌then◌else◌, length, take, bit_and, ◌++◌,
}
use xdna_cpp.Base.Outcome.{Outcome, done, at, ◌>>=◌}
use xdna_cpp.Base.Text.{bytes, ◌=ˢ◌, is_empty}
use xdna_cpp.Base.Word.{u32}
use xdna_cpp.Gate1.Image.{
  Section, read_u16, read_u32, read_u64, fixed_string, find_section, section_text, sections_inside,
  axlf_header_length_offset, axlf_header_mode_offset, axlf_header_action_mask_offset,
  axlf_header_platform_offset, axlf_header_section_count_offset, axlf_sections_offset,
  axlf_section_size,
}
use xdna_cpp.Gate1.Json.{
  json_object, json_string, json_decimal, json_first_array_string, decimal_string,
}
use xdna_cpp.Gate1.Metadata.{
  Gate1Metadata, default_metadata, mode_name, set_error, DriverConfig, object_or_none,
  text_or_empty, driver_config_fields, verdict,
}

-- `image[0]` to `image[7]`. The image is known to be longer.
abbrev pub has_magic : Bytes → Bool
has_magic image = take 8 image =ˢ (bytes "xclbin2" ++ 0 ∷ [])

module _ (image : Bytes) where
  -- From the reads of the AIE_PARTITION section on.
  pub parse_partition : Section → Gate1Metadata → Outcome ⊥ Gate1Metadata
  parse_partition partition metadata =
      if ltb partition.size (44 + 4) || ltb partition.size (32 + 2)
      then done
          (set_error metadata (bytes "AIE_PARTITION section is shorter than its public header"))
      else do
        width ← read_u16 image (partition.offset + 32)
        start_count ← read_u32 image (partition.offset + 40)
        start_offset ← read_u32 image (partition.offset + 44)
        let metadata : Gate1Metadata = record metadata { partition_section_width = width }
        (if start_count == 0
              || ltb (partition.size / 2) start_count
              || ltb partition.size start_offset
              || ltb (partition.size - start_offset) (start_count * 2)
            then done (
                set_error metadata
                  (bytes "AIE_PARTITION start_columns array is outside its section"))
            else (read_u16 image (partition.offset + start_offset) >>= λ start_column.
                done (verdict (record metadata { partition_section_start_column = start_column }))))

  abbrev with_driver_config : Gate1Metadata → DriverConfig → Gate1Metadata
  with_driver_config metadata config = record metadata {
    hw_gen = config.config_hw_gen;
    num_rows = config.config_num_rows;
    num_columns = config.config_num_columns;
    compute_row_start = config.config_row_start;
    compute_row_count = config.config_row_count;
    partition_num_columns = config.config_partition_columns;
    partition_start_column = config.config_overlay_start;
  }

  abbrev pub parse_config : Section → Gate1Metadata → Option DriverConfig → Outcome ⊥ Gate1Metadata
  parse_config partition metadata none =
      done (set_error metadata (bytes "AIE_METADATA driver_config lacks required target fields"))
  parse_config partition metadata (some config) =
      parse_partition partition (with_driver_config metadata config)

  abbrev with_dsa : Gate1Metadata → Bytes → Gate1Metadata
  with_dsa metadata dsa = record metadata {
    dsa_vendor = text_or_empty (json_string dsa (bytes "vendor"));
    dsa_board_id = text_or_empty (json_string dsa (bytes "board_id"));
    dsa_name = text_or_empty (json_string dsa (bytes "name"));
  }

  abbrev pub invalid_json : Gate1Metadata → Outcome ⊥ Gate1Metadata
  invalid_json metadata =
      done (set_error metadata (bytes "BUILD_METADATA or AIE_METADATA is not valid JSON metadata"))

  abbrev pub parse_objects :
      Section → Gate1Metadata → (dsa driver_config : Option Bytes) → Outcome ⊥ Gate1Metadata
  parse_objects partition metadata none driver_config = invalid_json metadata
  parse_objects partition metadata (some dsa) none = invalid_json metadata
  parse_objects partition metadata (some dsa) (some driver_config) =
      parse_config partition (with_dsa metadata dsa) (driver_config_fields driver_config)

  -- From the texts of BUILD_METADATA and AIE_METADATA on.
  pub parse_sections : (build aie partition : Section) → Gate1Metadata → Outcome ⊥ Gate1Metadata
  parse_sections build aie partition metadata = do
    build_text ← section_text image build
    aie_text ← section_text image aie
    parse_objects partition metadata
        (object_or_none (json_object build_text (bytes "build_metadata")) (bytes "dsa"))
        (object_or_none (json_object aie_text (bytes "aie_metadata")) (bytes "driver_config"))

  abbrev is_found : Option Section → Bool
  is_found none = false
  is_found (some section) = true

  abbrev pub missing_section : Gate1Metadata → Outcome ⊥ Gate1Metadata
  missing_section metadata = done (
      set_error metadata (bytes "xclbin is missing BUILD_METADATA, AIE_METADATA, or AIE_PARTITION"))

  abbrev pub parse_found :
      Gate1Metadata → (build aie partition : Option Section) → Outcome ⊥ Gate1Metadata
  parse_found metadata none aie partition = missing_section metadata
  parse_found metadata (some build) none partition = missing_section metadata
  parse_found metadata (some build) (some aie) none = missing_section metadata
  parse_found metadata (some build) (some aie) (some partition) =
      parse_sections build aie partition metadata

  -- From `container_valid = true` on, for a table of `section_count` entries.
  pub parse_container : (section_count : ℕ) → Outcome ⊥ Gate1Metadata
  parse_container section_count = do
    mode ← read_u16 image axlf_header_mode_offset
    mask ← read_u16 image axlf_header_action_mask_offset
    platform ← fixed_string image axlf_header_platform_offset 64
    build ← find_section image 14 section_count
    aie ← find_section image 25 section_count
    partition ← find_section image 32 section_count
    let metadata : Gate1Metadata = record default_metadata {
      container_valid = true;
      xclbin_mode = mode;
      action_mask = mask;
      xclbin_mode_name = mode_name mode;
      platform_vbnv = platform;
      has_build_metadata = is_found build;
      has_aie_metadata = is_found aie;
      has_aie_partition = is_found partition;
    }
    parse_found metadata build aie partition

  abbrev pub reject : Bytes → Outcome ⊥ Gate1Metadata
  reject message = done (set_error default_metadata message)

  -- From the section count on.
  pub parse_table : Outcome ⊥ Gate1Metadata
  parse_table = do
    section_count ← read_u32 image axlf_header_section_count_offset
    (if section_count == 0
          || ltb 0x10000 section_count
          || ltb ((length image - axlf_sections_offset) / axlf_section_size) section_count
        then reject (bytes "xclbin section table is outside the selected file")
        else (sections_inside image section_count 0 >>= λ inside.
            if inside
            then parse_container section_count
            else reject (bytes "xclbin section extends beyond the selected file")))

  pub parse_gate1_metadata : Outcome ⊥ Gate1Metadata
  parse_gate1_metadata =
      if ltb (length image) axlf_sections_offset
      then reject (bytes "xclbin is shorter than its axlf header")
      else if not (has_magic image)
      then reject (bytes "xclbin magic is not xclbin2")
      else do
        declared_length ← read_u64 image axlf_header_length_offset
        (if not (declared_length == length image)
            then reject (bytes "xclbin length does not match the selected file")
            else parse_table)
