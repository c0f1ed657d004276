-- ===== src/Tests/Reports.antt =====
-- The probe of XRT and the device report at concrete inputs.
use xdna_cpp.Base.{ℕ, zero, suc, false, none, ◌⊎◌, inl, inr}
use xdna_cpp.Base.Outcome.{Exception, exception, unknown_exception}
use xdna_cpp.Base.Text.{bytes}
use xdna_cpp.Device.Sysfs.{FileSystem}
use xdna_cpp.Probe.{Kernel}
use xdna_cpp.Xrt.{XrtSystem, probe_xrt}
use xdna_cpp.Xrt.Snapshots.{IsXrtProbe, probe_xrt-IsXrtProbe}

-- Two devices: the first does not open, the second has no name.
abbrev open_second : ℕ → Exception ⊎ Unit {0}
open_second zero = inl (exception (bytes "busy"))
open_second (suc index) = inr tt

abbrev two_devices : XrtSystem
two_devices = record {
  major = 2;
  minor = 26;
  patch = 0;
  enumerate_devices = inr 2;
  open_index = open_second;
  info_bdf = λ index. inr (bytes "0000:c5:00.1");
  info_name = λ index. inl unknown_exception;
}

probe_xrt-IsXrtProbe_example : IsXrtProbe two_devices (probe_xrt two_devices)
probe_xrt-IsXrtProbe_example = probe_xrt-IsXrtProbe two_devices

abbrev no_files : FileSystem
no_files = record { exists = λ path. false; contents = λ path. none; link_target = λ path. none }

abbrev no_kernel : Kernel
no_kernel = record {
  open_node = λ path. inl 2;
  query_metadata = λ descriptor. inl 22;
  query_firmware = λ descriptor. inl 22;
  strerror = λ error. bytes "No such file or directory";
}
