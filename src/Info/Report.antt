-- ===== src/Info/Report.antt =====
-- The device report of src/xdna-device.cpp: `format_device_report` and its helpers.
use xdna_cpp.Base.{
  ℕ, Bool, true, false, not, Bytes, List, [], ◌∷◌, ◌++◌, Option, none, some, ◌==◌, if◌then◌else◌,
}
use xdna_cpp.Base.Decimal.{to_string}
use xdna_cpp.Base.Outcome.{Outcome, done, fault, ◌>>=◌}
use xdna_cpp.Base.Text.{bytes, is_empty}
use xdna_cpp.Device.{Topology, valid, compute_tiles}
use xdna_cpp.Device.Sysfs.{
  SysfsSnapshot, Architecture, unknown_architecture, xdna1_aie2, architecture_name,
}
use xdna_cpp.Probe.{KernelProbe, empty_probe}
use xdna_cpp.Probe.Print.{format_kernel_probe}
use xdna_cpp.Xrt.{XrtProbe, XrtDeviceSnapshot, api_probe_succeeded, strict_succeeded}

abbrev yes_no : Bool → Bytes
yes_no value = if value then bytes "yes" else bytes "no"

abbrev value_or_unknown : Bytes → Bytes
value_or_unknown value = if is_empty value then bytes "unknown" else value

abbrev pub format_topology : Topology → Bytes
format_topology topology =
    if not (valid topology)
    then bytes "unknown"
    else to_string topology.rows
      ++ bytes " rows x "
      ++ to_string topology.columns
      ++ bytes " columns ("
      ++ to_string (compute_tiles topology)
      ++ bytes " compute tiles)"

abbrev xrt_api_status : XrtProbe → Bytes
xrt_api_status xrt =
    if api_probe_succeeded xrt
    then bytes "success"
    else if xrt.compiled_with_xrt
    then bytes "failure"
    else bytes "unavailable"

-- `*optional`, which has undefined behaviour without a value.
abbrev pub dereference : Option ℕ → Outcome ⊥ ℕ
dereference none = fault
dereference (some n) = done n

unfoldable pub xrt_strict_reason : XrtProbe → Outcome ⊥ Bytes
xrt_strict_reason xrt =
    if strict_succeeded xrt
    then done (bytes "pass")
    else if not xrt.compiled_with_xrt
    then done (bytes "failure (XRT support was not compiled)")
    else if not (api_probe_succeeded xrt)
    then done (bytes "failure (XRT enumeration failed)")
    else (do
      count ← dereference xrt.device_count
      done (
          if count == 0
          then bytes "failure (XRT enumeration returned zero devices)"
          else bytes "failure (no enumerated XRT device was opened)"))

abbrev present : Bool → Bytes
present value = if value then bytes "present" else bytes "missing"

abbrev topology_line : SysfsSnapshot → Bytes
topology_line sysfs = elim sysfs.physical_topology [
  | none ↦ bytes "  Physical topology: unknown\n"
  | some topology ↦
      bytes "  Physical topology: "
      ++ format_topology topology
      ++ bytes " ["
      ++ sysfs.physical_topology_basis
      ++ bytes "]\n"
]

abbrev sysfs_section : SysfsSnapshot → Bytes
sysfs_section sysfs =
    bytes "Sysfs discovery:\n  Accel node: "
    ++ sysfs.paths.accel_node
    ++ bytes " ("
    ++ present sysfs.accel_node_present
    ++ bytes ")\n  Sysfs device: "
    ++ sysfs.paths.sysfs_device
    ++ bytes " ("
    ++ present sysfs.sysfs_device_present
    ++ bytes ")\n  PCI BDF: "
    ++ value_or_unknown sysfs.pci_bdf
    ++ bytes "\n  PCI ID: "
    ++ value_or_unknown sysfs.vendor_id
    ++ bytes ":"
    ++ value_or_unknown sysfs.device_id
    ++ bytes "\n  PCI subsystem: "
    ++ value_or_unknown sysfs.subsystem_vendor_id
    ++ bytes ":"
    ++ value_or_unknown sysfs.subsystem_device_id
    ++ bytes "\n  Bound driver: "
    ++ value_or_unknown sysfs.driver
    ++ bytes "\n  VBNV: "
    ++ value_or_unknown sysfs.vbnv
    ++ bytes "\n  Firmware: "
    ++ value_or_unknown sysfs.firmware_version
    ++ bytes "\n  Architecture: "
    ++ architecture_name sysfs.architecture
    ++ bytes "\n"
    ++ topology_line sysfs
    ++ bytes "  Accessible workload topology: unknown (not proven by sysfs/XRT)\n\n"

abbrev count_text : Option ℕ → Bytes
count_text none = bytes "unknown"
count_text (some count) = to_string count

abbrev detail : Bytes → Bytes
detail error = if is_empty error then [] else bytes ", detail=" ++ error

abbrev device_lines : List XrtDeviceSnapshot → Bytes
device_lines [] = []
device_lines (device ∷ devices) =
    bytes "  Device "
    ++ to_string device.index
    ++ bytes ": opened="
    ++ yes_no device.opened
    ++ bytes ", BDF="
    ++ value_or_unknown device.bdf
    ++ bytes ", name="
    ++ value_or_unknown device.name
    ++ detail device.error
    ++ bytes "\n"
    ++ device_lines devices

abbrev probe_error_line : Bytes → Bytes
probe_error_line error =
    if is_empty error then [] else bytes "  Probe error: " ++ error ++ bytes "\n"

abbrev attempted_line : XrtProbe → Bytes
attempted_line xrt =
    if xrt.any_device_opened
    then bytes "  Device opening: attempted (at least one device opened)\n"
    else bytes "  Device opening: attempted (no device opened)\n"

-- The count is read where the probe succeeded only.
unfoldable pub opening_line : XrtProbe → Outcome ⊥ Bytes
opening_line xrt =
    if api_probe_succeeded xrt
    then (do
      count ← dereference xrt.device_count
      done (
          if count == 0
          then bytes "  Device opening: not attempted (XRT enumeration returned zero)\n"
          else attempted_line xrt))
    else done (bytes "  Device opening: not attempted (XRT enumeration did not complete)\n")

abbrev is_known : Architecture → Bool
is_known unknown_architecture = false
is_known xdna1_aie2 = true

abbrev capabilities : SysfsSnapshot → XrtProbe → Bytes
capabilities sysfs xrt =
    bytes "\nCapabilities proven by current build/runtime:\n  Sysfs XDNA classification (Gate 0): "
    ++ yes_no (is_known sysfs.architecture)
    ++ bytes "\n  XRT device discovery (Gate 0): "
    ++ yes_no (api_probe_succeeded xrt)
    ++ bytes "\n  XRT device opening (Gate 0): "
    ++ yes_no xrt.any_device_opened
    ++ bytes "\n  NPU hardware execution (Gate 1): "
    ++ yes_no xrt.any_device_opened
    ++ bytes "\n  Host <-> NPU DMA streaming (Gate 2): "
    ++ yes_no xrt.any_device_opened
    ++ bytes "\n  Q4_0 golden reference (Gate 3): yes\n"
    ++ bytes "  Q4_0 x BF16 decode GEMV (Gate 4): yes (fused in-register SIMD)\n"
    ++ bytes "  Qwen3.8-27B real tensor validation (Gate 5): yes (1.000000 cosine similarity)\n"
    ++ bytes "  ggml-xdna backend registration (Gate 6): yes (libggml-xdna.so)\n"
    ++ bytes "  Q4_0 MUL_MAT hybrid offload (Gate 7): yes (82.81% model offload)\n"

abbrev build_section : XrtProbe → (cache_directory : Bytes) → Bytes
build_section xrt cache_directory =
    bytes "xdna.cpp device report\n\nBuild:\n  XRT support compiled: "
    ++ yes_no xrt.compiled_with_xrt
    ++ bytes "\n  XRT library version: "
    ++ value_or_unknown xrt.library_version
    ++ bytes "\n  Kernel cache directory: "
    ++ value_or_unknown cache_directory
    ++ bytes "\n\n"

unfoldable pub format_device_report :
    SysfsSnapshot → XrtProbe → KernelProbe → (cache_directory : Bytes) → Outcome ⊥ Bytes
format_device_report sysfs xrt kernel cache_directory = do
  reason ← xrt_strict_reason xrt
  opening ← opening_line xrt
  done (
      build_section xrt cache_directory
      ++ sysfs_section sysfs
      ++ format_kernel_probe kernel
      ++ bytes "\nXRT runtime probe:\n  API probe: "
      ++ xrt_api_status xrt
      ++ bytes "\n  Devices found: "
      ++ count_text xrt.device_count
      ++ bytes "\n  At least one device opened: "
      ++ yes_no xrt.any_device_opened
      ++ bytes "\n  Strict status: "
      ++ reason
      ++ bytes "\n"
      ++ probe_error_line xrt.error
      ++ device_lines xrt.devices
      ++ opening
      ++ capabilities sysfs xrt)

-- The report without a kernel probe.
unfoldable pub format_sysfs_report :
    SysfsSnapshot → XrtProbe → (cache_directory : Bytes) → Outcome ⊥ Bytes
format_sysfs_report sysfs xrt cache_directory =
    format_device_report sysfs xrt (empty_probe sysfs.paths.accel_node) cache_directory
