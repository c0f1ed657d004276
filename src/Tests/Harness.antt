-- ===== src/Tests/Harness.antt =====
-- The Gate-1 harness at concrete inputs.
use xdna_cpp.Base.{ℕ, ◌≡◌, refl, true, Bytes, List, [], ◌∷◌, Option, none, some, ◌⊎◌, inr, arith}
use xdna_cpp.Base.Decimal.{to_string, to_hex, digits_before}
use xdna_cpp.Base.Int.{pos}
use xdna_cpp.Base.Outcome.{Exception, done}
use xdna_cpp.Base.Text.{bytes, is_empty}
use xdna_cpp.Gate1.Arguments.{Gate1Options, default_options, parse_gate1_arguments}
use xdna_cpp.Gate1.Harness.{
  Xrt, XrtCall, open_device, read_xclbin, load_xclbin, create_buffer, read_elf, create_context,
  create_kernel, create_run, start_run, wait_run, Progress,
}
use xdna_cpp.Gate1.Harness.Exit.{run_gate1-Reports, run_target-completes, gate1_main-Exits, Exits}
use xdna_cpp.Gate1.Harness.Calls.{Reports, allowed_calls, all_calls, standing}
use xdna_cpp.Gate1.Harness.Run.{Files, run_gate1, run_target, gate1_main, environment_options}
use xdna_cpp.Gate1.Metadata.{Gate1Metadata, default_metadata}
use xdna_cpp.Gate1.Report.{opened, read_gate1_metadata, pass}

to_string_test : to_string 18446744073709551615 ≡ bytes "18446744073709551615"
unfolding to_string digits_before
to_string_test = refl

to_hex_test : to_hex 64206 ≡ bytes "face"
unfolding to_hex digits_before
to_hex_test = refl

-- Every call returns; a wait returns the state 4.
abbrev working_answer : List XrtCall → XrtCall → Exception ⊎ ℕ
working_answer before (wait_run timeout) = inr 4
working_answer before (open_device index) = inr 0
working_answer before (read_xclbin path) = inr 0
working_answer before load_xclbin = inr 0
working_answer before (create_buffer size) = inr 0
working_answer before (read_elf path) = inr 0
working_answer before create_context = inr 0
working_answer before (create_kernel name) = inr 0
working_answer before create_run = inr 0
working_answer before start_run = inr 0

abbrev working : Xrt
working = record { answer = working_answer; ert_cmd_state_completed = 4 }

working_returns :
    (before : List XrtCall) (call : XrtCall) → (n : ℕ) × (working.answer before call ≡ inr n)
working_returns before (wait_run timeout) = (4, refl)
working_returns before (open_device index) = (0, refl)
working_returns before (read_xclbin path) = (0, refl)
working_returns before load_xclbin = (0, refl)
working_returns before (create_buffer size) = (0, refl)
working_returns before (read_elf path) = (0, refl)
working_returns before create_context = (0, refl)
working_returns before (create_kernel name) = (0, refl)
working_returns before create_run = (0, refl)
working_returns before start_run = (0, refl)

-- An image of three bytes at any path.
abbrev short_files : Files
short_files = record {
  is_regular_file = λ path. true;
  stream = λ path. opened (pos 3) (1 ∷ 2 ∷ 3 ∷ []);
}

abbrev with_elf : Gate1Options
with_elf = record default_options { xclbin = bytes "a.xclbin"; elf = bytes "a.elf" }

run_gate1-Reports_example :
    (metadata : Gate1Metadata) × (read_gate1_metadata with_elf.xclbin
        (short_files.stream with_elf.xclbin)
      ≡ done metadata)
    × Reports working with_elf
        (allowed_calls with_elf true true metadata.target_validated metadata.real_hardware_image
          (is_empty with_elf.elf))
        (run_gate1 true working short_files with_elf)
run_gate1-Reports_example = run_gate1-Reports true working short_files with_elf (ground arith)

abbrev real_image : Gate1Metadata
real_image = record default_metadata { target_validated = true; real_hardware_image = true }

run_target-completes_example :
    (progress : Progress) × (run_target true working with_elf true real_image
        (standing (pass ∷ []) [] [] [] [] [] [] [] [] [] [])
      ≡ (done 0, progress))
    × (progress.calls ≡ all_calls with_elf)
run_target-completes_example =
    run_target-completes working with_elf real_image [] [] [] [] [] [] [] [] [] refl refl
      working_returns (λ before timeout. refl)

abbrev no_environment : Bytes → Option Bytes
no_environment name = none

gate1_main-Exits_example :
    Exits
      (parse_gate1_arguments
        (some (bytes "gate1") ∷ some (bytes "--kernel") ∷ [])
        (environment_options no_environment))
      (gate1_main true working short_files no_environment
        (bytes "gate1")
        (some (bytes "--kernel") ∷ []))
gate1_main-Exits_example =
    gate1_main-Exits true working short_files no_environment (bytes "gate1")
      (some (bytes "--kernel") ∷ []) (λ path. ground arith)
