-- ===== src/Gate1/Harness/Run.antt =====
-- `run_gate1` and `main` of tools/xdna-gate1.cpp, with the file system and XRT as arguments.
use xdna_cpp.Base.{
  ℕ, Bool, true, false, Bytes, List, [], ◌∷◌, ◌++◌, Option, none, some, ◌==◌, if◌then◌else◌,
}
use xdna_cpp.Base.Decimal.{to_string}
use xdna_cpp.Base.Outcome.{Exception, message_of, Outcome, done, thrown, fault}
use xdna_cpp.Base.Text.{bytes, is_empty}
use xdna_cpp.Gate1.Arguments.{
  Gate1Options, Gate1ArgumentParse, default_options, parse_gate1_arguments,
}
use xdna_cpp.Gate1.Harness.{
  Xrt, open_device, read_xclbin, load_xclbin, create_buffer, read_elf, create_context,
  create_kernel, create_run, start_run, wait_run, Progress, Harness, ◌>>=◌, ◌>>◌, give, try_catch,
  invoke, print, print_error, initial_statuses, set_status, has_failed_state, mark_unreached,
  completion_passed,
}
use xdna_cpp.Gate1.Metadata.{Gate1Metadata}
use xdna_cpp.Gate1.Print.{format_gate1_metadata, gate1_usage}
use xdna_cpp.Gate1.Report.{
  Stream, read_gate1_metadata, Gate1State, image_found, target_validated, device_opened,
  image_loaded, buffers_created, dispatch_submitted, completion_observed, output_reference_verified,
  pass, fail, not_applicable, format_gate1_status,
}

-- Both catch clauses of a state: it fails, and the states behind it are not reached.
abbrev pub fail_with : Gate1State → (unknown reason : Bytes) → Exception → Harness (Unit {0})
fail_with state unknown reason e = do
  set_status state fail (message_of e unknown)
  mark_unreached state reason

-- What the state of the command says, as the test of the wait.
abbrev pub observe : (completed : Bool) → (state : ℕ) → Harness (Unit {0})
observe true state =
    set_status completion_observed pass (bytes "xrt::run::wait returned ERT_CMD_STATE_COMPLETED")
observe false state =
    set_status completion_observed fail
      (bytes "xrt::run::wait returned command state " ++ to_string state)

-- A file was opened, and its metadata read.
abbrev pub from_read : Outcome ⊥ Gate1Metadata → Harness Gate1Metadata
from_read (done metadata) progress = (done metadata, progress)
from_read (thrown e) progress = absurd e
from_read fault progress = (fault, progress)

module _ (xrt : Xrt) (options : Gate1Options) where
  abbrev pub dispatch : Harness (Unit {0})
  dispatch = do
    read ← invoke xrt (read_elf options.elf)
    context ← invoke xrt create_context
    kernel ← invoke xrt (create_kernel options.kernel)
    run ← invoke xrt create_run
    started ← invoke xrt start_run
    set_status dispatch_submitted pass (bytes "xrt::run::start submitted one ELF-backed kernel run")
    state ← invoke xrt (wait_run options.timeout_ms)
    observe (state == xrt.ert_cmd_state_completed) state

  -- The branches of `options.elf.empty()`.
  abbrev pub dispatch_elf : (no_elf : Bool) → Harness (Unit {0})
  dispatch_elf true = do
    set_status dispatch_submitted not_applicable
        (bytes "no ELF supplied; no dispatch was attempted")
    mark_unreached dispatch_submitted (bytes "no ELF was supplied")
  dispatch_elf false = try_catch dispatch (
      fail_with dispatch_submitted (bytes "unknown exception during ELF context/kernel/run setup")
        (bytes "dispatch setup/submission failed"))

  abbrev pub create_buffers : Harness (Unit {0})
  create_buffers = do
    buffer ← invoke xrt (create_buffer 4096)
    set_status buffers_created pass (
        bytes "created one 4096-byte XRT host-only scratch BO; "
        ++ bytes "it is not passed as a kernel argument")
    dispatch_elf (is_empty options.elf)

  abbrev pub load_image : Harness (Unit {0})
  load_image = do
    image ← invoke xrt (read_xclbin options.xclbin)
    loaded ← invoke xrt load_xclbin
    set_status image_loaded pass (bytes "xrt::device::load_xclbin completed")
    try_catch create_buffers (
        fail_with buffers_created (bytes "unknown exception while creating XRT BO")
          (bytes "buffers_created did not pass"))

  -- The branches of `metadata.real_hardware_image`.
  abbrev pub use_device : (real : Bool) → (mode : Bytes) → Harness (Unit {0})
  use_device false mode = do
    set_status image_loaded not_applicable (
        bytes "selected xclbin metadata mode is "
        ++ mode
        ++ bytes "; real-device Gate-1 refuses emulation images and will not "
        ++ bytes "call xrt::device::load_xclbin")
    mark_unreached image_loaded (bytes "real-device image load was refused")
  use_device true mode = try_catch load_image (
      fail_with image_loaded (bytes "unknown exception from xrt::device::load_xclbin")
        (bytes "image_loaded did not pass"))

  -- The device, or a null pointer.
  abbrev pub open_selected : Harness Bool
  open_selected =
      try_catch
        (do
          device ← invoke xrt (open_device options.device_index)
          set_status device_opened pass (bytes "xrt::device(index) completed")
          give true)
        (λ e. do
          fail_with device_opened (bytes "unknown exception from xrt::device(index)")
              (bytes "device_opened did not pass") e
          give false)

  abbrev pub with_device : (device : Bool) → Gate1Metadata → Harness (Unit {0})
  with_device false metadata = give tt
  with_device true metadata = use_device metadata.real_hardware_image metadata.xclbin_mode_name

  -- Both builds: `XDNA_WITH_XRT` is not defined, or it is.
  abbrev pub attempt_device : (with_xrt : Bool) → Gate1Metadata → Harness (Unit {0})
  attempt_device false metadata = do
    set_status device_opened not_applicable
        (bytes "XRT support was disabled at build time; no real-device API " ++ bytes "was called")
    mark_unreached device_opened (bytes "device_opened is not applicable without XRT")
  attempt_device true metadata = open_selected >>= λ device. with_device device metadata

abbrev no_reference : Harness (Unit {0})
no_reference = set_status output_reference_verified not_applicable (
    bytes "no documented input/output contract supplied; no TCT/NOP "
    ++ bytes "vector-add correctness invoked")

-- The report and the exit code.
abbrev pub report : (code : Progress → ℕ) → Harness ℕ
report code progress =
    (no_reference >> λ progress. (
      done (code progress),
      record progress { output = progress.output ++ format_gate1_status progress.statuses },
    ))
      progress

abbrev pub exit_code : Progress → ℕ
exit_code progress =
    if has_failed_state progress.statuses
    then 1
    else if completion_passed progress.statuses
    then 0
    else 3

-- An early return: a state failed, and the exit code is 1.
abbrev pub stop_at : Gate1State → (why reason : Bytes) → Harness ℕ
stop_at state why reason = do
  set_status state fail why
  mark_unreached state reason
  report (λ progress. 1)

abbrev banner : Gate1Options → Bytes
banner options =
    bytes "xdna.cpp Gate-1 real-device harness\nSelected xclbin: "
    ++ options.xclbin
    ++ bytes "\nSelected ELF: "
    ++ (if is_empty options.elf then bytes "not supplied" else options.elf)
    ++ bytes "\nDevice index: "
    ++ to_string options.device_index
    ++ bytes "\nKernel name: "
    ++ options.kernel
    ++ bytes "\n\n"

module _ (with_xrt : Bool) (xrt : Xrt) (options : Gate1Options) where
  -- The branches of `metadata.target_validated`.
  abbrev pub run_target : (validated : Bool) → Gate1Metadata → Harness ℕ
  run_target false metadata =
      stop_at target_validated
        (if is_empty metadata.error
          then bytes "xclbin metadata target validation failed"
          else metadata.error)
        (bytes "target_validated did not pass")
  run_target true metadata = do
    set_status target_validated pass (
        bytes "actual xclbin metadata matches the Phoenix/NPU1/AIE2 profile; "
        ++ bytes "filename was not used for validation")
    attempt_device xrt options with_xrt metadata
    report exit_code

  -- The branches of `selected_file_exists`.
  abbrev pub run_image : (exists : Bool) → Stream → Harness ℕ
  run_image false stream =
      stop_at image_found
        (bytes "selected xclbin is missing or is not a regular file: " ++ options.xclbin)
        (bytes "image_found did not pass")
  run_image true stream = do
    set_status image_found pass (bytes "selected xclbin exists: " ++ options.xclbin)
    metadata ← from_read (read_gate1_metadata options.xclbin stream)
    print (format_gate1_metadata metadata ++ bytes "\n")
    run_target metadata.target_validated metadata

-- What the file system answers for a path: whether it is a regular file, and its stream.
pub record Files : Type 0 where
  pub is_regular_file : Bytes → Bool
  pub stream : Bytes → Stream

abbrev pub start : Progress
start = record { statuses = initial_statuses; calls = []; output = []; errors = [] }

module _ (with_xrt : Bool) (xrt : Xrt) (files : Files) where
  unfoldable pub run_gate1 : Gate1Options → Outcome Exception ℕ × Progress
  run_gate1 options =
      (print (banner options)
          >> run_image with_xrt xrt options (files.is_regular_file options.xclbin)
              (files.stream options.xclbin))
        start

abbrev given : Option Bytes → Bytes → Bytes
given none other = other
given (some value) other = if is_empty value then other else value

-- The options that the environment gives.
abbrev pub environment_options : (getenv : Bytes → Option Bytes) → Gate1Options
environment_options getenv = record default_options {
  xclbin = given (getenv (bytes "XDNA_GATE1_XCLBIN")) [];
  elf = given (getenv (bytes "XDNA_GATE1_ELF")) [];
}

module _ (with_xrt : Bool) (xrt : Xrt) (files : Files) where
  -- The branches of `main` behind the parse, by its two flags; the program is `argv[0]`.
  abbrev pub run_parsed :
      (help ok : Bool) → (program : Bytes) → Gate1ArgumentParse → Outcome Exception ℕ × Progress
  run_parsed true ok program parsed = (print (gate1_usage program) >> give 0) start
  run_parsed false true program parsed = run_gate1 with_xrt xrt files parsed.options
  run_parsed false false program parsed =
      (print_error (bytes "argument error: " ++ parsed.error ++ bytes "\n" ++ gate1_usage program)
          >> give 2)
        start

  unfoldable pub gate1_main :
      (getenv : Bytes → Option Bytes) (program : Bytes) (arguments : List (Option Bytes))
      → Outcome Exception ℕ × Progress
  gate1_main getenv program arguments =
      let parsed = parse_gate1_arguments (some program ∷ arguments) (environment_options getenv) in
      run_parsed parsed.help parsed.ok program parsed
