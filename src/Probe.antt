-- ===== src/Probe.antt =====
-- `probe_kernel` of src/xdna-kernel-probe.cpp on Linux, with the system calls as arguments.
pub mod Calls
pub mod Print
use xdna_cpp.Base.{
  ℕ, Bool, true, false, Bytes, List, [], ◌∷◌, ◌++◌, Option, none, some, ◌⊎◌, inl, inr,
}
use xdna_cpp.Base.Text.{bytes}
use xdna_cpp.Device.{Topology}

pub record KernelProbeError : Type 0 where
  pub operation : Bytes
  pub parameter : Bytes
  pub error_number : ℕ
  pub error_message : Bytes

pub record KernelTileSnapshot : Type 0 where
  pub row_count : ℕ
  pub row_start : ℕ
  pub dma_channel_count : ℕ
  pub lock_count : ℕ
  pub event_reg_count : ℕ

-- What GET_INFO writes for the AIE metadata, and for the firmware version.
pub record AieMetadata : Type 0 where
  pub column_size : ℕ
  pub rows : ℕ
  pub columns : ℕ
  pub version_major : ℕ
  pub version_minor : ℕ
  pub core_tile : KernelTileSnapshot
  pub memory_tile : KernelTileSnapshot
  pub shim_tile : KernelTileSnapshot

pub record FirmwareVersion : Type 0 where
  pub major : ℕ
  pub minor : ℕ
  pub patch : ℕ
  pub build : ℕ

pub record KernelAieSnapshot : Type 0 where
  pub snapshot_column_size : ℕ
  pub physical_topology : Topology
  pub aie_major : ℕ
  pub aie_minor : ℕ
  pub compute : KernelTileSnapshot
  pub memory : KernelTileSnapshot
  pub shim : KernelTileSnapshot

pub record KernelProbe : Type 0 where
  pub accel_node : Bytes
  pub device_opened : Bool
  pub metadata_query_attempted : Bool
  pub firmware_query_attempted : Bool
  pub aie : Option KernelAieSnapshot
  pub firmware : Option FirmwareVersion
  pub errors : List KernelProbeError

-- What the kernel answers: an error number, or a descriptor and the structures it fills in.
pub record Kernel : Type 0 where
  pub open_node : Bytes → ℕ ⊎ ℕ
  pub query_metadata : ℕ → ℕ ⊎ AieMetadata
  pub query_firmware : ℕ → ℕ ⊎ FirmwareVersion
  pub strerror : ℕ → Bytes

-- The system calls on a descriptor, in order.
pub data Syscall : Type 0 where
  opened : (descriptor : ℕ) → Syscall
  metadata_query : (descriptor : ℕ) → Syscall
  firmware_query : (descriptor : ℕ) → Syscall
  closed : (descriptor : ℕ) → Syscall

abbrev pub empty_probe : Bytes → KernelProbe
empty_probe accel_node = record {
  accel_node = accel_node;
  device_opened = false;
  metadata_query_attempted = false;
  firmware_query_attempted = false;
  aie = none;
  firmware = none;
  errors = [];
}

abbrev pub aie_snapshot : AieMetadata → KernelAieSnapshot
aie_snapshot metadata = record {
  snapshot_column_size = metadata.column_size;
  physical_topology = record { rows = metadata.rows; columns = metadata.columns };
  aie_major = metadata.version_major;
  aie_minor = metadata.version_minor;
  compute = metadata.core_tile;
  memory = metadata.memory_tile;
  shim = metadata.shim_tile;
}

module _ (kernel : Kernel) where
  abbrev pub error_for : (operation parameter : Bytes) → ℕ → KernelProbeError
  error_for operation parameter error_number = record {
    operation = operation;
    parameter = parameter;
    error_number = error_number;
    error_message = kernel.strerror error_number;
  }

  abbrev pub add_error : KernelProbe → (operation parameter : Bytes) → ℕ → KernelProbe
  add_error probe operation parameter error_number = record probe {
    errors = probe.errors ++ error_for operation parameter error_number ∷ [];
  }

  abbrev pub with_metadata : KernelProbe → ℕ ⊎ AieMetadata → KernelProbe
  with_metadata probe (inl error) =
      add_error (record probe { metadata_query_attempted = true }) (bytes "ioctl")
        (bytes "DRM_IOCTL_AMDXDNA_GET_INFO param=DRM_AMDXDNA_QUERY_AIE_METADATA") error
  with_metadata probe (inr metadata) = record probe {
    metadata_query_attempted = true;
    aie = some (aie_snapshot metadata);
  }

  abbrev pub with_firmware : KernelProbe → ℕ ⊎ FirmwareVersion → KernelProbe
  with_firmware probe (inl error) =
      add_error (record probe { firmware_query_attempted = true }) (bytes "ioctl")
        (bytes "DRM_IOCTL_AMDXDNA_GET_INFO param=DRM_AMDXDNA_QUERY_FIRMWARE_VERSION") error
  with_firmware probe (inr firmware) = record probe {
    firmware_query_attempted = true;
    firmware = some firmware;
  }

  -- `ioctl` on the descriptor, with the answer in the probe.
  abbrev pub ask_metadata :
      (descriptor : ℕ) → KernelProbe × List Syscall → KernelProbe × List Syscall
  ask_metadata descriptor (probe, calls) = (
    with_metadata probe (kernel.query_metadata descriptor),
    calls ++ metadata_query descriptor ∷ [],
  )

  abbrev pub ask_firmware :
      (descriptor : ℕ) → KernelProbe × List Syscall → KernelProbe × List Syscall
  ask_firmware descriptor (probe, calls) = (
    with_firmware probe (kernel.query_firmware descriptor),
    calls ++ firmware_query descriptor ∷ [],
  )

  -- `result.device_opened = true`, and the destructor of the descriptor.
  abbrev pub leave : (descriptor : ℕ) → KernelProbe × List Syscall → KernelProbe × List Syscall
  leave descriptor (probe, calls) =
      (record probe { device_opened = true }, calls ++ closed descriptor ∷ [])

  abbrev pub probe_opened : KernelProbe → ℕ ⊎ ℕ → KernelProbe × List Syscall
  probe_opened probe (inl error) = (add_error probe (bytes "open") [] error, [])
  probe_opened probe (inr descriptor) =
      leave descriptor
        (ask_firmware descriptor (ask_metadata descriptor (probe, opened descriptor ∷ [])))

  pub probe_kernel : (accel_node : Bytes) → KernelProbe × List Syscall
  probe_kernel accel_node = probe_opened (empty_probe accel_node) (kernel.open_node accel_node)
