-- ===== src/Gate1/Print.antt =====
-- `format_gate1_metadata` and `gate1_usage` of src/xdna-gate1.cpp.
use xdna_cpp.Base.{ℕ, ◌+◌, ◌-◌, ◌^◌, Bool, Bytes, [], ◌++◌, ◌==◌, if◌then◌else◌}
use xdna_cpp.Base.Decimal.{to_string, to_hex}
use xdna_cpp.Base.Text.{bytes, is_empty}
use xdna_cpp.Base.Word.{u32}
use xdna_cpp.Gate1.Metadata.{Gate1Metadata}

abbrev pub yes_or_no : Bool → Bytes
yes_or_no value = if value then bytes "yes" else bytes "no"

abbrev pub or_unknown : Bytes → Bytes
or_unknown value = if is_empty value then bytes "unknown" else value

-- The rows `start` to `start + count - 1`, as 32-bit numbers.
abbrev compute_rows : (start count : ℕ) → Bytes
compute_rows start count =
    if count == 0
    then bytes ", compute_rows=unknown"
    else bytes ", compute_rows="
      ++ to_string start
      ++ bytes ".."
      ++ to_string (u32 (u32 (start + count) + 2 ^ 32 - 1))

abbrev metadata_error_line : Bytes → Bytes
metadata_error_line error = if is_empty error then [] else bytes "\n  metadata error: " ++ error

abbrev names_text : Gate1Metadata → Bytes
names_text metadata =
    bytes "xclbin metadata:\n  container_valid: "
    ++ yes_or_no metadata.container_valid
    ++ bytes "\n  platform_vbnv: "
    ++ or_unknown metadata.platform_vbnv
    ++ bytes "\n  dsa: vendor="
    ++ or_unknown metadata.dsa_vendor
    ++ bytes ", board_id="
    ++ or_unknown metadata.dsa_board_id
    ++ bytes ", name="
    ++ or_unknown metadata.dsa_name

abbrev mode_text : Gate1Metadata → Bytes
mode_text metadata =
    bytes "\n  mode: "
    ++ to_string metadata.xclbin_mode
    ++ bytes " ("
    ++ or_unknown metadata.xclbin_mode_name
    ++ bytes ")\n  action_mask: 0x"
    ++ to_hex metadata.action_mask

abbrev aie_text : Gate1Metadata → Bytes
aie_text metadata =
    bytes "\n  AIE_METADATA: hw_gen="
    ++ to_string metadata.hw_gen
    ++ bytes ", rows="
    ++ to_string metadata.num_rows
    ++ bytes ", columns="
    ++ to_string metadata.num_columns
    ++ compute_rows metadata.compute_row_start metadata.compute_row_count

abbrev partition_text : Gate1Metadata → Bytes
partition_text metadata =
    bytes "\n  AIE partition: width="
    ++ to_string metadata.partition_num_columns
    ++ bytes ", start_column="
    ++ to_string metadata.partition_start_column
    ++ bytes " (section width="
    ++ to_string metadata.partition_section_width
    ++ bytes ", section start="
    ++ to_string metadata.partition_section_start_column
    ++ bytes ")\n"

unfoldable pub format_gate1_metadata : Gate1Metadata → Bytes
format_gate1_metadata metadata =
    names_text metadata
    ++ mode_text metadata
    ++ aie_text metadata
    ++ partition_text metadata
    ++ bytes "  Phoenix/NPU1/AIE2 target metadata: "
    ++ (if metadata.target_validated then bytes "validated" else bytes "rejected")
    ++ bytes "\n  real-hardware image mode: "
    ++ yes_or_no metadata.real_hardware_image
    ++ metadata_error_line metadata.error
    ++ bytes "\n"

unfoldable pub gate1_usage : (program : Bytes) → Bytes
gate1_usage program =
    bytes "Usage: "
    ++ program
    ++ bytes " --xclbin PATH [--elf PATH] [options]\n"
    ++ bytes "\n"
    ++ bytes "Real-device Gate-1 harness. The xclbin is metadata-validated;"
    ++ bytes " no vector-add/reference check is performed.\n"
    ++ bytes "Options:\n"
    ++ bytes "  --xclbin PATH       selected xclbin (or XDNA_GATE1_XCLBIN)\n"
    ++ bytes "  --elf PATH          XRT ELF for the demonstrated NPU dispatch path\n"
    ++ bytes "  --device-index N    XRT device index (default 0)\n"
    ++ bytes "  --timeout-ms N      completion wait timeout (default 10000)\n"
    ++ bytes "  --kernel NAME       XRT ELF kernel name (default DPU:dpu)\n"
    ++ bytes "  --help              show this text\n"
