-- ===== src/Probe/Print.antt =====
-- `format_kernel_probe` of src/xdna-kernel-probe.cpp.
use xdna_cpp.Base.{
  ◌+◌, ◌-◌, ◌*◌, Bool, true, false, Bytes, List, [], ◌∷◌, ◌++◌, Option, none, some, ◌==◌,
  if◌then◌else◌,
}
use xdna_cpp.Base.Decimal.{to_string}
use xdna_cpp.Base.Text.{bytes, ◌=ˢ◌}
use xdna_cpp.Base.Word.{u64}
use xdna_cpp.Device.{Topology, valid}
use xdna_cpp.Probe.{
  KernelProbe, KernelProbeError, KernelTileSnapshot, KernelAieSnapshot, FirmwareVersion,
}

abbrev format_errno : KernelProbeError → Bytes
format_errno error =
    (if error.operation =ˢ bytes "open"
      then bytes "open: "
      else error.operation ++ bytes "(" ++ error.parameter ++ bytes "): ")
    ++ bytes "errno="
    ++ to_string error.error_number
    ++ bytes " ("
    ++ error.error_message
    ++ bytes ")"

abbrev query_status : (attempted succeeded : Bool) → Bytes
query_status false succeeded = bytes "not attempted"
query_status true true = bytes "success"
query_status true false = bytes "failure"

-- Both fields have 16 bits, so that the sum does not wrap around.
abbrev format_row_range : KernelTileSnapshot → Bytes
format_row_range tile =
    if tile.row_count == 0
    then bytes "unknown"
    else to_string tile.row_start
      ++ bytes ".."
      ++ to_string (tile.row_start + tile.row_count - 1)
      ++ bytes " ("
      ++ to_string tile.row_count
      ++ bytes " rows)"

abbrev format_firmware : FirmwareVersion → Bytes
format_firmware firmware =
    to_string firmware.major
    ++ bytes "."
    ++ to_string firmware.minor
    ++ bytes "."
    ++ to_string firmware.patch
    ++ bytes "."
    ++ to_string firmware.build

abbrev format_physical_topology : Topology → Bytes
format_physical_topology topology =
    if valid topology
    then to_string topology.rows
      ++ bytes " rows x "
      ++ to_string topology.columns
      ++ bytes " columns ("
      ++ to_string (u64 (topology.rows * topology.columns))
      ++ bytes " tile positions)"
    else bytes "unknown"

abbrev metadata_query_succeeded : KernelProbe → Bool
metadata_query_succeeded probe = elim probe.aie [ none ↦ false | some snapshot ↦ true ]

abbrev firmware_query_succeeded : KernelProbe → Bool
firmware_query_succeeded probe = elim probe.firmware [ none ↦ false | some version ↦ true ]

abbrev aie_lines : Option KernelAieSnapshot → Bytes
aie_lines none = []
aie_lines (some aie) =
    bytes "  AIE version: "
    ++ to_string aie.aie_major
    ++ bytes "."
    ++ to_string aie.aie_minor
    ++ bytes "\n  Physical AIE topology: "
    ++ format_physical_topology aie.physical_topology
    ++ bytes "\n  Compute row range: "
    ++ format_row_range aie.compute
    ++ bytes "\n  Memory row range: "
    ++ format_row_range aie.memory
    ++ bytes "\n  Shim row range: "
    ++ format_row_range aie.shim
    ++ bytes "\n  Column size: "
    ++ to_string aie.snapshot_column_size
    ++ bytes " bytes\n"

abbrev firmware_lines : Option FirmwareVersion → Bytes
firmware_lines none = []
firmware_lines (some firmware) =
    bytes "  Firmware version: " ++ format_firmware firmware ++ bytes "\n"

abbrev error_lines : List KernelProbeError → Bytes
error_lines [] = []
error_lines (error ∷ errors) =
    bytes "  Error: " ++ format_errno error ++ bytes "\n" ++ error_lines errors

unfoldable pub format_kernel_probe : KernelProbe → Bytes
format_kernel_probe probe =
    bytes "Kernel amdxdna probe:\n  Accelerator node: "
    ++ probe.accel_node
    ++ bytes "\n  Device open: "
    ++ (if probe.device_opened then bytes "success" else bytes "failure")
    ++ bytes "\n  GET_INFO AIE metadata: "
    ++ query_status probe.metadata_query_attempted (metadata_query_succeeded probe)
    ++ bytes "\n"
    ++ aie_lines probe.aie
    ++ bytes "  GET_INFO firmware version: "
    ++ query_status probe.firmware_query_attempted (firmware_query_succeeded probe)
    ++ bytes "\n"
    ++ firmware_lines probe.firmware
    ++ error_lines probe.errors
    ++ bytes "  Workload execution proof: no (read-only GET_INFO only)\n"
    ++ bytes "  Accessible workload topology: unknown (not proven by GET_INFO)\n"
