-- ===== src/Xrt.antt =====
-- `probe_xrt` of src/xdna-xrt-probe.cpp and src/xdna-xrt-probe-stub.cpp, with XRT as an argument.
pub mod Devices
pub mod Snapshots
use xdna_cpp.Base.{
  ℕ, zero, suc, ◌+◌, Bool, true, false, ◌&&◌, Bytes, List, [], ◌∷◌, ◌++◌, Option, none, some, ◌⊎◌,
  inl, inr,
}
use xdna_cpp.Base.Decimal.{to_string}
use xdna_cpp.Base.Outcome.{Exception, message_of}
use xdna_cpp.Base.Text.{bytes}

pub record XrtDeviceSnapshot : Type 0 where
  pub index : ℕ
  pub opened : Bool
  pub bdf : Bytes
  pub name : Bytes
  pub error : Bytes

pub record XrtProbe : Type 0 where
  pub compiled_with_xrt : Bool
  pub library_version : Bytes
  pub device_count : Option ℕ
  pub any_device_opened : Bool
  pub error : Bytes
  pub devices : List XrtDeviceSnapshot

abbrev pub has_value : Option ℕ → Bool
has_value none = false
has_value (some n) = true

abbrev pub api_probe_succeeded : XrtProbe → Bool
api_probe_succeeded probe = has_value probe.device_count

abbrev pub strict_succeeded : XrtProbe → Bool
strict_succeeded probe = api_probe_succeeded probe && probe.any_device_opened

abbrev empty_xrt_probe : XrtProbe
empty_xrt_probe = record {
  compiled_with_xrt = false;
  library_version = [];
  device_count = none;
  any_device_opened = false;
  error = [];
  devices = [];
}

-- The build without XRT.
abbrev pub probe_xrt_stub : XrtProbe
probe_xrt_stub = record empty_xrt_probe { error = bytes "xdna.cpp was built without XRT support" }

-- What XRT answers: the version, the number of devices, and for an index whether the device opens and its two texts.
pub record XrtSystem : Type 0 where
  pub major : ℕ
  pub minor : ℕ
  pub patch : ℕ
  pub enumerate_devices : Exception ⊎ ℕ
  pub open_index : ℕ → Exception ⊎ Unit {0}
  pub info_bdf : ℕ → Exception ⊎ Bytes
  pub info_name : ℕ → Exception ⊎ Bytes

abbrev opening_message : Bytes
opening_message = bytes "unknown exception while opening XRT device"

abbrev snapshot_with : ℕ → (opened : Bool) → (bdf name error : Bytes) → XrtDeviceSnapshot
snapshot_with index opened bdf name error = record {
  index = index;
  opened = opened;
  bdf = bdf;
  name = name;
  error = error;
}

abbrev with_name : ℕ → (bdf : Bytes) → Exception ⊎ Bytes → XrtDeviceSnapshot
with_name index bdf (inl e) = snapshot_with index true bdf [] (message_of e opening_message)
with_name index bdf (inr name) = snapshot_with index true bdf name []

module _ (xrt : XrtSystem) where
  abbrev with_bdf : ℕ → Exception ⊎ Bytes → XrtDeviceSnapshot
  with_bdf index (inl e) = snapshot_with index true [] [] (message_of e opening_message)
  with_bdf index (inr bdf) = with_name index bdf (xrt.info_name index)

  abbrev with_opening : ℕ → Exception ⊎ Unit {0} → XrtDeviceSnapshot
  with_opening index (inl e) = snapshot_with index false [] [] (message_of e opening_message)
  with_opening index (inr opened) = with_bdf index (xrt.info_bdf index)

  -- One round of the loop.
  unfoldable pub probe_device : ℕ → XrtDeviceSnapshot
  probe_device index = with_opening index (xrt.open_index index)

  -- The snapshot is pushed, and an opened device sets the flag.
  abbrev pub push_device : XrtProbe → XrtDeviceSnapshot → XrtProbe
  push_device probe device = record probe {
    any_device_opened = elim device.opened [ true ↦ true | false ↦ probe.any_device_opened ];
    devices = probe.devices ++ device ∷ [];
  }

  unfoldable pub probe_devices : (left index : ℕ) → XrtProbe → XrtProbe
  probe_devices zero index probe = probe
  probe_devices (suc left) index probe =
      probe_devices left (index + 1) (push_device probe (probe_device index))

  abbrev versioned : XrtProbe
  versioned = record empty_xrt_probe {
    compiled_with_xrt = true;
    library_version =
        to_string xrt.major ++ bytes "." ++ to_string xrt.minor ++ bytes "." ++ to_string xrt.patch;
  }

  abbrev pub enumerated : Exception ⊎ ℕ → XrtProbe
  enumerated (inl e) = record versioned {
    error = message_of e (bytes "unknown exception from XRT device enumeration");
  }
  enumerated (inr count) = probe_devices count 0 (record versioned { device_count = some count })

  unfoldable pub probe_xrt : XrtProbe
  probe_xrt = enumerated xrt.enumerate_devices
