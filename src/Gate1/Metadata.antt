-- ===== src/Gate1/Metadata.antt =====
-- `Gate1Metadata` of include/xdna/gate1.h, and what src/xdna-gate1.cpp does with its fields.
pub mod Laws
use xdna_cpp.Base.{
  ℕ, ◌+◌, ◌-◌, ◌*◌, ◌/◌, Bool, true, false, not, ◌&&◌, ◌||◌, Bytes, [], ◌∷◌, Option, none, some,
  ◌==◌, ltb, leb, if◌then◌else◌, length, take, bit_and, ◌++◌,
}
use xdna_cpp.Base.Outcome.{Outcome, done, at, ◌>>=◌}
use xdna_cpp.Base.Text.{bytes, ◌=ˢ◌, is_empty}
use xdna_cpp.Base.Word.{u32}
use xdna_cpp.Gate1.Image.{
  Section, read_u16, read_u32, read_u64, fixed_string, find_section, section_text, sections_inside,
  axlf_header_length_offset, axlf_header_mode_offset, axlf_header_action_mask_offset,
  axlf_header_platform_offset, axlf_header_section_count_offset, axlf_sections_offset,
  axlf_section_size,
}
use xdna_cpp.Gate1.Json.{
  json_object, json_string, json_decimal, json_first_array_string, decimal_string,
}

pub record Gate1Metadata : Type 0 where
  pub container_valid : Bool
  pub has_build_metadata : Bool
  pub has_aie_metadata : Bool
  pub has_aie_partition : Bool
  pub target_validated : Bool
  pub real_hardware_image : Bool
  pub xclbin_mode : ℕ
  pub action_mask : ℕ
  pub xclbin_mode_name : Bytes
  pub platform_vbnv : Bytes
  pub dsa_vendor : Bytes
  pub dsa_board_id : Bytes
  pub dsa_name : Bytes
  pub hw_gen : ℕ
  pub num_rows : ℕ
  pub num_columns : ℕ
  pub compute_row_start : ℕ
  pub compute_row_count : ℕ
  pub partition_num_columns : ℕ
  pub partition_start_column : ℕ
  pub partition_section_width : ℕ
  pub partition_section_start_column : ℕ
  pub error : Bytes

-- `Gate1Metadata metadata;`
abbrev pub default_metadata : Gate1Metadata
default_metadata = record {
  container_valid = false;
  has_build_metadata = false;
  has_aie_metadata = false;
  has_aie_partition = false;
  target_validated = false;
  real_hardware_image = false;
  xclbin_mode = 0;
  action_mask = 0;
  xclbin_mode_name = [];
  platform_vbnv = [];
  dsa_vendor = [];
  dsa_board_id = [];
  dsa_name = [];
  hw_gen = 0;
  num_rows = 0;
  num_columns = 0;
  compute_row_start = 0;
  compute_row_count = 0;
  partition_num_columns = 0;
  partition_start_column = 0;
  partition_section_width = 0;
  partition_section_start_column = 0;
  error = [];
}

abbrev pub mode_name : ℕ → Bytes
mode_name mode =
    if mode == 0
    then bytes "hw"
    else if mode == 4
    then bytes "hw_emu"
    else if mode == 5
    then bytes "sw_emu"
    else if mode == 6
    then bytes "hw_emu_pr"
    else bytes "unknown"

-- The first error stays.
abbrev pub set_error : Gate1Metadata → Bytes → Gate1Metadata
set_error metadata message =
    if is_empty metadata.error then record metadata { error = message } else metadata

-- The fields of `driver_config` that have to be there.
pub record DriverConfig : Type 0 where
  pub config_hw_gen : ℕ
  pub config_num_rows : ℕ
  pub config_num_columns : ℕ
  pub config_row_start : ℕ
  pub config_row_count : ℕ
  pub config_partition_columns : ℕ
  pub config_overlay_start : ℕ

abbrev pub object_or_none : Option Bytes → Bytes → Option Bytes
object_or_none none key = none
object_or_none (some object) key = json_object object key

abbrev pub text_or_empty : Option Bytes → Bytes
text_or_empty none = []
text_or_empty (some text) = text

infixl 5 ◌>>=?◌
abbrev ◌>>=?◌ : {A B : Type 0} → Option A → (A → Option B) → Option B
none >>=? f = none
some a >>=? f = f a

unfoldable pub driver_config_fields : Bytes → Option DriverConfig
driver_config_fields driver_config = json_decimal driver_config (bytes "hw_gen") >>=? λ hw_gen.
    json_decimal driver_config (bytes "num_rows") >>=? λ num_rows.
    json_decimal driver_config (bytes "num_columns") >>=? λ num_columns.
    json_decimal driver_config (bytes "aie_tile_row_start") >>=? λ row_start.
    json_decimal driver_config (bytes "aie_tile_num_rows") >>=? λ row_count.
    json_decimal driver_config (bytes "partition_num_cols") >>=? λ partition_columns.
    json_first_array_string driver_config (bytes "partition_overlay_start_cols")
    >>=? λ overlay_text. decimal_string overlay_text >>=? λ overlay_start. some (record {
      config_hw_gen = hw_gen;
      config_num_rows = num_rows;
      config_num_columns = num_columns;
      config_row_start = row_start;
      config_row_count = row_count;
      config_partition_columns = partition_columns;
      config_overlay_start = overlay_start;
    })

-- The profile that the parsed fields have to match. The sum is one of `std::uint32_t`.
abbrev pub profile_matches : Gate1Metadata → Bool
profile_matches metadata =
    metadata.platform_vbnv =ˢ bytes "xilinx_v1_ipu_0_0"
    && metadata.dsa_vendor =ˢ bytes "xilinx"
    && metadata.dsa_board_id =ˢ bytes "v1"
    && metadata.dsa_name =ˢ bytes "ipu"
    && metadata.hw_gen == 3
    && metadata.num_rows == 6
    && metadata.num_columns == 5
    && metadata.compute_row_start == 2
    && metadata.compute_row_count == 4
    && not (bit_and metadata.action_mask 1 == 0)
    && ltb 0 metadata.partition_num_columns
    && leb (u32 (metadata.partition_start_column + metadata.partition_num_columns))
        metadata.num_columns
    && metadata.partition_section_width == metadata.partition_num_columns
    && metadata.partition_section_start_column == metadata.partition_start_column

abbrev pub judge : Bool → Gate1Metadata → Gate1Metadata
judge matches metadata = record metadata {
  target_validated = matches;
  real_hardware_image = matches && metadata.xclbin_mode == 0;
}

abbrev pub report_mismatch : Bool → Gate1Metadata → Gate1Metadata
report_mismatch true metadata = metadata
report_mismatch false metadata =
    set_error metadata (bytes "xclbin metadata does not match the Phoenix/NPU1/AIE2 profile")

-- The verdict at the end of `parse_gate1_metadata`.
pub verdict : Gate1Metadata → Gate1Metadata
verdict metadata =
    let matches = profile_matches metadata in report_mismatch matches (judge matches metadata)
