-- ===== src/Tests/Gate.antt =====
-- The Gate-1 validator and the topology parser at concrete inputs.
use xdna_cpp.Base.{
  ◌≡◌, Bytes, [], ◌∷◌, ◌++◌, some, none, replicate, arith, true, if◌then◌else◌, inl, inr,
}
use xdna_cpp.Base.Outcome.{done}
use xdna_cpp.Base.Int.{pos}
use xdna_cpp.Base.Text.{bytes, ◌=ˢ◌}
use xdna_cpp.Device.{parse_topology}
use xdna_cpp.Device.Topologies.{IsTopology, parse_topology-IsTopology}
use xdna_cpp.Device.Sysfs.{FileSystem, DiscoveryPaths, discover_sysfs}
use xdna_cpp.Device.Sysfs.Snapshot.{IsSnapshot, discover_sysfs-IsSnapshot}
use xdna_cpp.Gate1.Report.{
  IsFileVerdict, opened, read_gate1_metadata, read_gate1_metadata-IsFileVerdict,
}
use xdna_cpp.Gate1.Arguments.{default_options, parse_gate1_arguments}
use xdna_cpp.Gate1.Arguments.Laws.{IsUsable, IsParse, parse_gate1_arguments-IsParse}
use xdna_cpp.Gate1.Image.Bounds.{AreBytes}
use xdna_cpp.Probe.{Kernel, probe_kernel}
use xdna_cpp.Probe.Calls.{IsProbe, probe_kernel-IsProbe}
use xdna_cpp.Tests.Data.{AreBytes-append, AreBytes-zeros}
use xdna_cpp.Gate1.Json.{json_string}
use xdna_cpp.Gate1.Json.Quoted.{quote, json_string-quote}
use xdna_cpp.Gate1.Metadata.{Gate1Metadata}
use xdna_cpp.Gate1.Metadata.Laws.{IsVerdict}
use xdna_cpp.Gate1.Parse.{parse_gate1_metadata}
use xdna_cpp.Gate1.Parse.Total.{parse_gate1_metadata_done}

-- A header and a table of one section that is none of the three.
abbrev small_image : Bytes
small_image =
    (bytes "xclbin2" ++ replicate 297 0)
    ++ ((0xf0 ∷ 0x01 ∷ []) ++ replicate 142 0)
    ++ ((1 ∷ []) ++ replicate 47 0)

small_image-AreBytes : AreBytes small_image
small_image-AreBytes =
    AreBytes-append
      ((bytes "xclbin2" ++ replicate 297 0) ++ ((0xf0 ∷ 0x01 ∷ []) ++ replicate 142 0))
      ((1 ∷ []) ++ replicate 47 0)
      (AreBytes-append (bytes "xclbin2" ++ replicate 297 0) ((0xf0 ∷ 0x01 ∷ []) ++ replicate 142 0)
        (AreBytes-append (bytes "xclbin2") (replicate 297 0) (ground arith) (AreBytes-zeros 297))
        (AreBytes-append (0xf0 ∷ 0x01 ∷ []) (replicate 142 0) (ground arith) (AreBytes-zeros 142)))
      (AreBytes-append (1 ∷ []) (replicate 47 0) (ground arith) (AreBytes-zeros 47))

parse_gate1_metadata_done_example :
    (metadata : Gate1Metadata) × (parse_gate1_metadata small_image ≡ done metadata)
    × IsVerdict metadata
parse_gate1_metadata_done_example = parse_gate1_metadata_done small_image small_image-AreBytes

-- A quote and a backslash in the text.
json_string-quote_example :
    json_string
      (b'{' ∷ (b'"' ∷ bytes "name" ++ b'"' ∷ [])
        ++ (b':' ∷ quote (b'"' ∷ b'\\' ∷ 0x0a ∷ []) ++ bytes "}"))
      (bytes "name")
    ≡ some (b'"' ∷ b'\\' ∷ 0x0a ∷ [])
json_string-quote_example = json_string-quote (bytes "name") (b'"' ∷ b'\\' ∷ 0x0a ∷ []) (bytes "}")

default_options-IsUsable : IsUsable default_options
default_options-IsUsable = record {
  timeout_positive = omega arith;
  timeout_word = omega arith;
  index_word = omega arith;
}

parse_gate1_arguments-IsParse_example : IsParse (
    parse_gate1_arguments
      (some (bytes "gate1") ∷ some (bytes "--xclbin") ∷ some (bytes "a.xclbin") ∷ [])
      default_options)
parse_gate1_arguments-IsParse_example =
    parse_gate1_arguments-IsParse
      (some (bytes "gate1") ∷ some (bytes "--xclbin") ∷ some (bytes "a.xclbin") ∷ [])
      default_options default_options-IsUsable

parse_topology-IsTopology_example : IsTopology (parse_topology (bytes "4 rows x 5 columns"))
parse_topology-IsTopology_example = parse_topology-IsTopology (bytes "4 rows x 5 columns")

-- An end that the bytes do not reach.
read_gate1_metadata-IsFileVerdict_example :
    (metadata : Gate1Metadata) × (read_gate1_metadata
        (bytes "a.xclbin")
        (opened (pos 500) small_image)
      ≡ done metadata)
    × IsFileVerdict (bytes "a.xclbin") (pos 500) small_image metadata
read_gate1_metadata-IsFileVerdict_example =
    read_gate1_metadata-IsFileVerdict (bytes "a.xclbin") (pos 500) small_image small_image-AreBytes

-- A device with an id and no link to its driver.
abbrev one_device : FileSystem
one_device = record {
  exists = λ path. true;
  contents = λ path. if path =ˢ bytes "d/device" then some (bytes "0x1502\n") else none;
  link_target = λ path. none;
}

abbrev device_paths : DiscoveryPaths
device_paths = record { accel_node = bytes "a"; sysfs_device = bytes "d" }

discover_sysfs-IsSnapshot_example :
    IsSnapshot one_device device_paths (discover_sysfs one_device device_paths)
discover_sysfs-IsSnapshot_example = discover_sysfs-IsSnapshot one_device device_paths

-- The metadata query fails with error 22, the firmware query answers.
abbrev half_working : Kernel
half_working = record {
  open_node = λ path. inr 7;
  query_metadata = λ descriptor. inl 22;
  query_firmware = λ descriptor. inr (record { major = 1; minor = 5; patch = 0; build = 2 });
  strerror = λ error. bytes "Invalid argument";
}

probe_kernel-IsProbe_example :
    IsProbe half_working
      (half_working.open_node (bytes "/dev/accel/accel0"))
      (probe_kernel half_working (bytes "/dev/accel/accel0")).0
      (probe_kernel half_working (bytes "/dev/accel/accel0")).1
probe_kernel-IsProbe_example = probe_kernel-IsProbe half_working (bytes "/dev/accel/accel0")
