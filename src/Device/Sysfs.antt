-- ===== src/Device/Sysfs.antt =====
-- `discover_sysfs` of src/xdna-device.cpp, with the texts it reads.
pub mod Snapshot
use xdna_cpp.Base.{
  ℕ, Bool, true, false, not, ◌||◌, Bytes, List, [], ◌∷◌, ◌++◌, reverse, Option, none, some, ◌==◌,
  if◌then◌else◌,
}
use xdna_cpp.Base.Text.{bytes, ◌=ˢ◌, is_empty}
use xdna_cpp.Device.{trim_spaces, lowercase, split_first, Topology}

-- What the file system answers: `exists`, the contents of a file that opens, the target of a link.
pub record FileSystem : Type 0 where
  pub exists : Bytes → Bool
  pub contents : Bytes → Option Bytes
  pub link_target : Bytes → Option Bytes

-- `std::map<std::string, std::string>`, each key once.
abbrev pub Pairs : Type 0
Pairs = List (Bytes × Bytes)

abbrev pub insert : Pairs → (key value : Bytes) → Pairs
insert [] key value = (key, value) ∷ []
insert (p ∷ pairs) key value =
    if p.0 =ˢ key then (key, value) ∷ pairs else p ∷ insert pairs key value

abbrev pub map_value : Pairs → Bytes → Bytes
map_value [] key = []
map_value (p ∷ pairs) key = if p.0 =ˢ key then p.1 else map_value pairs key

-- `std::getline` until it fails: a text that ends with a newline has no empty line behind it.
unfoldable pub lines_of : (line text : Bytes) → List Bytes
lines_of [] [] = []
lines_of (c ∷ line) [] = (c ∷ line) ∷ []
lines_of line (c ∷ text) = elim (c == b'\n') [
  | true ↦ line ∷ lines_of [] text
  | false ↦ lines_of (line ++ c ∷ []) text
]

abbrev add_pair : Pairs → (key value : Bytes) → Pairs
add_pair pairs key value = if is_empty key then pairs else insert pairs key value

abbrev add_line : Pairs → Option (Bytes × Bytes) → Pairs
add_line pairs none = pairs
add_line pairs (some (before, behind)) =
    add_pair pairs (trim_spaces (reverse before)) (trim_spaces behind)

abbrev add_lines : Pairs → List Bytes → Pairs
add_lines pairs [] = pairs
add_lines pairs (line ∷ lines) = add_lines (add_line pairs (split_first (b'=' ∷ []) [] line)) lines

unfoldable pub parse_key_value_lines : Bytes → Pairs
parse_key_value_lines text = add_lines [] (lines_of [] text)

pub data Architecture : Type 0 where
  unknown_architecture : Architecture
  xdna1_aie2 : Architecture

abbrev pub architecture_name : Architecture → Bytes
architecture_name xdna1_aie2 = bytes "XDNA1 / AIE2"
architecture_name unknown_architecture = bytes "unknown"

abbrev pub is_some : Option (Bytes × Bytes) → Bool
is_some none = false
is_some (some p) = true

unfoldable pub classify_architecture : (vbnv pci_device_id : Bytes) → Architecture
classify_architecture vbnv pci_device_id =
    let device = lowercase pci_device_id in
    if is_some (split_first (bytes "npu1") [] (lowercase vbnv))
      || device =ˢ bytes "1502"
      || device =ˢ bytes "0x1502"
    then xdna1_aie2
    else unknown_architecture

pub record DiscoveryPaths : Type 0 where
  pub accel_node : Bytes
  pub sysfs_device : Bytes

pub record SysfsSnapshot : Type 0 where
  pub paths : DiscoveryPaths
  pub accel_node_present : Bool
  pub sysfs_device_present : Bool
  pub pci_bdf : Bytes
  pub vendor_id : Bytes
  pub device_id : Bytes
  pub subsystem_vendor_id : Bytes
  pub subsystem_device_id : Bytes
  pub driver : Bytes
  pub vbnv : Bytes
  pub firmware_version : Bytes
  pub uevent : Pairs
  pub architecture : Architecture
  pub physical_topology : Option Topology
  pub physical_topology_basis : Bytes

abbrev text_or_empty : Option Bytes → Bytes
text_or_empty none = []
text_or_empty (some text) = text

-- `path.filename()`: what stands behind the last slash.
unfoldable pub filename : (name path : Bytes) → Bytes
filename name [] = name
filename name (c ∷ path) = elim (c == b'/') [
  | true ↦ filename [] path
  | false ↦ filename (name ++ c ∷ []) path
]

abbrev link_name : Option Bytes → Bytes
link_name none = []
link_name (some target) = filename [] target

abbrev pub with_topology : Architecture → SysfsSnapshot → SysfsSnapshot
with_topology unknown_architecture snapshot = snapshot
with_topology xdna1_aie2 snapshot = record snapshot {
  physical_topology = some (record { rows = 6; columns = 5 });
  physical_topology_basis = bytes "XDNA1/NPU1 AIE array; validate with amdxdna GET_INFO";
}

module _ (files : FileSystem) where
  abbrev pub read_attr : (root name : Bytes) → Bytes
  read_attr root name = trim_spaces (text_or_empty (files.contents (root ++ b'/' ∷ name)))

  abbrev driver_name : (root from_uevent : Bytes) → Bytes
  driver_name root from_uevent =
      if is_empty from_uevent
      then link_name (files.link_target (root ++ bytes "/driver"))
      else from_uevent

  -- The snapshot before anything of the device is read.
  abbrev pub start_snapshot : DiscoveryPaths → SysfsSnapshot
  start_snapshot paths = record {
    paths = paths;
    accel_node_present = files.exists paths.accel_node;
    sysfs_device_present = files.exists paths.sysfs_device;
    pci_bdf = [];
    vendor_id = [];
    device_id = [];
    subsystem_vendor_id = [];
    subsystem_device_id = [];
    driver = [];
    vbnv = [];
    firmware_version = [];
    uevent = [];
    architecture = unknown_architecture;
    physical_topology = none;
    physical_topology_basis = [];
  }

  -- The fields that are read of a device that is present.
  abbrev pub device_fields : SysfsSnapshot → Architecture → SysfsSnapshot
  device_fields snapshot kind =
      let root = snapshot.paths.sysfs_device in
      let pairs = parse_key_value_lines (read_attr root (bytes "uevent")) in
      record snapshot {
        uevent = pairs;
        pci_bdf = map_value pairs (bytes "PCI_SLOT_NAME");
        vendor_id = read_attr root (bytes "vendor");
        device_id = read_attr root (bytes "device");
        subsystem_vendor_id = read_attr root (bytes "subsystem_vendor");
        subsystem_device_id = read_attr root (bytes "subsystem_device");
        driver = driver_name root (map_value pairs (bytes "DRIVER"));
        vbnv = read_attr root (bytes "vbnv");
        firmware_version = read_attr root (bytes "fw_version");
        architecture = kind;
      }

  pub read_device : SysfsSnapshot → SysfsSnapshot
  read_device snapshot =
      let root = snapshot.paths.sysfs_device in
      let kind =
        classify_architecture (read_attr root (bytes "vbnv")) (read_attr root (bytes "device")) in
      with_topology kind (device_fields snapshot kind)

  abbrev pub if_present : Bool → SysfsSnapshot → SysfsSnapshot
  if_present true snapshot = read_device snapshot
  if_present false snapshot = snapshot

  pub discover_sysfs : DiscoveryPaths → SysfsSnapshot
  discover_sysfs paths =
      let start = start_snapshot paths in if_present start.sysfs_device_present start
