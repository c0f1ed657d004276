-- ===== src/Info.antt =====
-- `main` of tools/xdna-info.cpp, with the environment, the file system, the kernel and XRT as arguments.
pub mod Report
pub mod Laws
use xdna_cpp.Base.{
  ℕ, Bool, true, false, not, ◌&&◌, ◌||◌, Bytes, List, [], ◌∷◌, ◌++◌, Option, none, some, ◌⊎◌, inl,
  inr, if◌then◌else◌,
}
use xdna_cpp.Base.Outcome.{Outcome, done, ◌>>=◌}
use xdna_cpp.Base.Text.{bytes, ◌=ˢ◌, is_empty}
use xdna_cpp.Device.Sysfs.{DiscoveryPaths, FileSystem, discover_sysfs}
use xdna_cpp.Info.Report.{format_device_report}
use xdna_cpp.Probe.{Kernel, probe_kernel}
use xdna_cpp.Xrt.{XrtProbe, strict_succeeded}

abbrev pub print_usage : (program : Bytes) → Bytes
print_usage program =
    bytes "Usage: " ++ program ++ bytes " [--strict] [--accel-node PATH] [--sysfs-device PATH]\n"

abbrev from_home : Option Bytes → Bytes
from_home none = bytes "not configured (set XDNA_CACHE_DIR)"
from_home (some home) =
    if is_empty home
    then bytes "not configured (set XDNA_CACHE_DIR)"
    else home ++ bytes "/.cache/xdna.cpp/kernels"

abbrev configured_or : Option Bytes → Bytes → Bytes
configured_or none other = other
configured_or (some configured) other = if is_empty configured then other else configured

abbrev pub cache_directory : (getenv : Bytes → Option Bytes) → Bytes
cache_directory getenv =
    configured_or (getenv (bytes "XDNA_CACHE_DIR")) (from_home (getenv (bytes "HOME")))

-- What `main` writes and returns.
pub record Exit : Type 0 where
  pub code : ℕ
  pub output : Bytes
  pub errors : Bytes

pub record InfoOptions : Type 0 where
  pub paths : DiscoveryPaths
  pub strict : Bool

-- `DiscoveryPaths paths; bool strict = false;`
abbrev pub default_info_options : InfoOptions
default_info_options = record {
  paths = record {
    accel_node = bytes "/dev/accel/accel0";
    sysfs_device = bytes "/sys/class/accel/accel0/device";
  };
  strict = false;
}

abbrev pub set_path : InfoOptions → (argument path : Bytes) → InfoOptions
set_path options argument path =
    if argument =ˢ bytes "--accel-node"
    then record options {
      paths = record { accel_node = path; sysfs_device = options.paths.sysfs_device };
    }
    else record options {
      paths = record { accel_node = options.paths.accel_node; sysfs_device = path };
    }

abbrev pub refused : (program message : Bytes) → Exit
refused program message = record { code = 2; output = print_usage program; errors = message }

abbrev pub takes_path : Bytes → Bool
takes_path argument = argument =ˢ bytes "--accel-node" || argument =ˢ bytes "--sysfs-device"

abbrev pub is_help : Bytes → Bool
is_help argument = argument =ˢ bytes "--help" || argument =ˢ bytes "-h"

-- The loop over the arguments: it returns from `main`, or it gives the options.
unfoldable pub parse_info_arguments :
    (program : Bytes) → InfoOptions → List Bytes → Exit ⊎ InfoOptions
parse_info_arguments program options [] = inr options
parse_info_arguments program options (argument ∷ []) =
    if is_help argument
    then inl (record { code = 0; output = print_usage program; errors = [] })
    else if argument =ˢ bytes "--strict"
    then inr (record options { strict = true })
    else if takes_path argument
    then inl (refused program (argument ++ bytes " requires a path\n"))
    else inl (refused program (bytes "unknown argument: " ++ argument ++ bytes "\n"))
parse_info_arguments program options (argument ∷ value ∷ rest) = elim (is_help argument) [
  | true ↦ inl (record { code = 0; output = print_usage program; errors = [] })
  | false ↦ elim (argument =ˢ bytes "--strict") [
    | true ↦ parse_info_arguments program (record options { strict = true }) (value ∷ rest)
    | false ↦ elim (takes_path argument) [
      | true ↦ parse_info_arguments program (set_path options argument value) rest
      | false ↦ inl (refused program (bytes "unknown argument: " ++ argument ++ bytes "\n"))
    ]
  ]
]

module _ (files : FileSystem) (kernel : Kernel) (xrt : XrtProbe)
    (getenv : Bytes → Option Bytes) where
  -- Behind the loop.
  abbrev pub report_with : Exit ⊎ InfoOptions → Outcome ⊥ Exit
  report_with (inl exit) = done exit
  report_with (inr options) = do
    report ←
        format_device_report (discover_sysfs files options.paths) xrt
          (probe_kernel kernel options.paths.accel_node).0 (cache_directory getenv)
    done (record {
      code = if options.strict && not (strict_succeeded xrt) then 1 else 0;
      output = report;
      errors = [];
    })

  unfoldable pub info_main : (program : Bytes) (arguments : List Bytes) → Outcome ⊥ Exit
  info_main program arguments =
      report_with (parse_info_arguments program default_info_options arguments)
