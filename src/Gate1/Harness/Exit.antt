-- ===== src/Gate1/Harness/Exit.antt =====
-- `run_gate1` and `main` of tools/xdna-gate1.cpp end with a report and an exit code.
use mathlib.Core.List.{append_assoc, append-nil}
use xdna_cpp.Base.{
  ℕ, ◌≡◌, refl, sym, subst, ap, ◌∙◌, ◌≤◌, Bool, true, false, ◌++◌, ◌≢◌, ◌↔◌, Bytes, List, [], ◌∷◌,
  Option, some, inl, inr, arith, take, map, Bool-cases,
}
use xdna_cpp.Base.Outcome.{Exception, Outcome, done, thrown, fault}
use xdna_cpp.Base.Text.{is_empty}
use xdna_cpp.Gate1.Arguments.{Gate1Options, Gate1ArgumentParse, parse_gate1_arguments}
use xdna_cpp.Gate1.Harness.{Xrt, XrtCall, wait_run, Progress}
use xdna_cpp.Gate1.Harness.Calls.{
  Reports, asked, asked-cons, code_of, all_calls, allowed_calls, standing,
}
use xdna_cpp.Gate1.Harness.Laws.{attempt_device-Reports, stopped}
use xdna_cpp.Gate1.Harness.Run.{
  Files, run_gate1, run_target, run_image, run_parsed, gate1_main, environment_options,
}
use xdna_cpp.Gate1.Metadata.{Gate1Metadata}
use xdna_cpp.Gate1.Report.{
  Stream, StreamBytes, read_gate1_metadata, read_gate1_metadata-done, Gate1StateResult, pass, fail,
  not_applicable,
}

module _ (with_xrt : Bool) (xrt : Xrt) (options : Gate1Options) where
  run_target-Reports :
      (validated : Bool) (metadata : Gate1Metadata) (a b c d e f g h : Bytes) (output : Bytes)
      → Reports xrt options
          (allowed_calls options with_xrt true validated metadata.real_hardware_image
            (is_empty options.elf))
          (run_target with_xrt xrt options validated metadata
            (standing (pass ∷ []) a b c d e f g h [] output))
  run_target-Reports false metadata a b c d e f g h output = elim (Bool-cases with_xrt) [
    | inl on ↦ rw on (stopped xrt options output _ 0 _ refl refl refl refl (omega arith))
    | inr off ↦ rw off (stopped xrt options output _ 0 _ refl refl refl refl (omega arith))
  ]
  run_target-Reports true metadata a b c d e f g h output =
      attempt_device-Reports xrt options output with_xrt metadata a _ c d e f g h

  run_image-Reports :
      (exists : Bool) (stream : Stream) (metadata : Gate1Metadata) (a b c d e f g h : Bytes)
      (output : Bytes)
      → read_gate1_metadata options.xclbin stream ≡ done metadata
      → Reports xrt options
          (allowed_calls options with_xrt exists metadata.target_validated
            metadata.real_hardware_image
            (is_empty options.elf))
          (run_image with_xrt xrt options exists stream (standing [] a b c d e f g h [] output))
  run_image-Reports false stream metadata a b c d e f g h output reads =
      elim (Bool-cases with_xrt) [
        | inl on ↦ rw on (stopped xrt options output _ 0 _ refl refl refl refl (omega arith))
        | inr off ↦ rw off (stopped xrt options output _ 0 _ refl refl refl refl (omega arith))
      ]
  run_image-Reports true stream metadata a b c d e f g h output reads =
      rw reads (run_target-Reports metadata.target_validated metadata _ b c d e f g h _)

module _ (with_xrt : Bool) (xrt : Xrt) (files : Files) (options : Gate1Options) where
  -- With the metadata that are read.
  run_gate1-Reports_of :
      (metadata : Gate1Metadata)
      → read_gate1_metadata options.xclbin (files.stream options.xclbin) ≡ done metadata
      → Reports xrt options
          (allowed_calls options with_xrt
            (files.is_regular_file options.xclbin)
            metadata.target_validated
            metadata.real_hardware_image
            (is_empty options.elf))
          (run_gate1 with_xrt xrt files options)
  unfolding run_gate1
  run_gate1-Reports_of metadata reads =
      run_image-Reports with_xrt xrt options (files.is_regular_file options.xclbin)
        (files.stream options.xclbin) metadata _ _ _ _ _ _ _ _ _ reads

-- Where what the stream of the xclbin gives are bytes: `run_gate1` has metadata to read, and
-- returns an exit code in either build and for every XRT. The report has the eight states in order;
-- some of them pass, at most one behind those fails, and no later one is reached. The code is 1
-- where a state failed, 0 where only the reference state is left, and 3 otherwise. The calls of XRT
-- are those that the build, the file, the metadata and the options allow, each made when those
-- before it returned. The code is 0 exactly when all ten calls were made and the wait returned the
-- state of a completed command.
pub run_gate1-Reports :
    (with_xrt : Bool) (xrt : Xrt) (files : Files) (options : Gate1Options)
    → StreamBytes (files.stream options.xclbin)
    → (metadata : Gate1Metadata) × (read_gate1_metadata options.xclbin (files.stream options.xclbin)
        ≡ done metadata)
      × Reports xrt options
          (allowed_calls options with_xrt
            (files.is_regular_file options.xclbin)
            metadata.target_validated
            metadata.real_hardware_image
            (is_empty options.elf))
          (run_gate1 with_xrt xrt files options)
run_gate1-Reports with_xrt xrt files options all =
    let (metadata, reads) =
      read_gate1_metadata-done options.xclbin (files.stream options.xclbin) all in
    (metadata, reads, run_gate1-Reports_of with_xrt xrt files options metadata reads)

-- Calls that all return are all made.
asked-append :
    (xrt : Xrt) (before todo : List XrtCall)
    → ((seen : List XrtCall) (call : XrtCall) → (n : ℕ) × (xrt.answer seen call ≡ inr n))
    → asked xrt before todo ≡ before ++ todo
asked-append xrt before [] returns = sym (append-nil before)
asked-append xrt before (call ∷ todo) returns =
    let (n, h) = returns before call in
    asked-cons xrt before call todo (inr n) h
    ∙ asked-append xrt (before ++ call ∷ []) todo returns
    ∙ append_assoc before (call ∷ []) todo

completed_report :
    (xrt : Xrt) (options : Gate1Options) (r : Outcome Exception ℕ × Progress)
    → Reports xrt options (all_calls options) r
    → asked xrt [] (all_calls options) ≡ all_calls options
    → xrt.answer (take 9 (all_calls options)) (wait_run options.timeout_ms)
      ≡ inr xrt.ert_cmd_state_completed
    → (progress : Progress) × (r ≡ (done 0, progress)) × (progress.calls ≡ all_calls options)
completed_report xrt options (done code, progress) report all waited =
    let calls = report.calls ∙ all in
    (progress, ap (λ (c : ℕ). (done c, progress)) (report.completes.1 (calls, waited)), calls)
completed_report xrt options (thrown e, progress) report all waited = absurd report
completed_report xrt options (fault, progress) report all waited = absurd report

-- In the build with XRT, behind the metadata of a validated real-hardware image, and with an ELF:
-- where every call of XRT returns, and every wait with the state of a completed command, the rest
-- of `run_gate1` makes all ten calls in order and ends with 0, whatever was printed before.
pub run_target-completes :
    (xrt : Xrt) (options : Gate1Options) (metadata : Gate1Metadata) (a b c d e f g h output : Bytes)
    → metadata.real_hardware_image ≡ true
    → is_empty options.elf ≡ false
    → ((before : List XrtCall) (call : XrtCall) → (n : ℕ) × (xrt.answer before call ≡ inr n))
    → ((before : List XrtCall) (timeout : ℕ)
        → xrt.answer before (wait_run timeout) ≡ inr xrt.ert_cmd_state_completed)
    → (progress : Progress) × (run_target true xrt options true metadata
          (standing (pass ∷ []) a b c d e f g h [] output)
        ≡ (done 0, progress))
      × (progress.calls ≡ all_calls options)
run_target-completes xrt options metadata a b c d e f g h output real elf returns waits =
    let run =
      run_target true xrt options true metadata (standing (pass ∷ []) a b c d e f g h [] output) in
    completed_report xrt options run
      (subst (λ calls. Reports xrt options calls run) (rw (real, elf))
        (run_target-Reports true xrt options true metadata a b c d e f g h output))
      (asked-append xrt [] (all_calls options) returns) (waits _ _)

-- The exit code of the program, by what its arguments say.
pub record IsExit (parsed : Gate1ArgumentParse) (code : ℕ) (progress : Progress) : Type 0 where
  pub bounded : code ≤ 3
  pub usage : parsed.help ≡ false → (code ≡ 2 ↔ parsed.ok ≡ false)
  pub silent : parsed.help ≡ false → parsed.ok ≡ false → progress.calls ≡ []
  pub helps : parsed.help ≡ true → (code ≡ 0) × (progress.calls ≡ [])

abbrev pub Exits : Gate1ArgumentParse → Outcome Exception ℕ × Progress → Type 0
Exits parsed (done code, progress) = IsExit parsed code progress
Exits parsed (thrown e, progress) = ⊥
Exits parsed (fault, progress) = ⊥

code_of-range : (results : List Gate1StateResult) → (code_of results ≤ 3) × (code_of results ≢ 2)
code_of-range [] = (omega arith, λ e. omega (arith, e))
code_of-range (pass ∷ results) = code_of-range results
code_of-range (fail ∷ results) = (omega arith, λ e. omega (arith, e))
code_of-range (not_applicable ∷ []) = (omega arith, λ e. omega (arith, e))
code_of-range (not_applicable ∷ result ∷ results) = (omega arith, λ e. omega (arith, e))

ran-IsExit :
    (xrt : Xrt) (options : Gate1Options) (allowed : List XrtCall) (parsed : Gate1ArgumentParse)
    (r : Outcome Exception ℕ × Progress)
    → parsed.help ≡ false
    → parsed.ok ≡ true
    → Reports xrt options allowed r
    → Exits parsed r
ran-IsExit xrt options allowed parsed (done code, progress) no_help ok report =
    let range = code_of-range (map (λ status. status.result) progress.statuses) in
    let range' = subst (λ (c : ℕ). (c ≤ 3) × (c ≢ 2)) (sym report.exit) range in
    record {
      bounded = range'.0;
      usage = λ _. (λ two. absurd (range'.1 two), λ failed. ground (arith, ok, failed));
      silent = λ _ failed. ground (arith, ok, failed);
      helps = λ help. ground (arith, help, no_help);
    }
ran-IsExit xrt options allowed parsed (thrown e, progress) no_help ok report = absurd report
ran-IsExit xrt options allowed parsed (fault, progress) no_help ok report = absurd report

run_parsed-Exits :
    (with_xrt : Bool) (xrt : Xrt) (files : Files) (program : Bytes) (help ok : Bool)
    (parsed : Gate1ArgumentParse)
    → ((path : Bytes) → StreamBytes (files.stream path))
    → parsed.help ≡ help
    → parsed.ok ≡ ok
    → Exits parsed (run_parsed with_xrt xrt files help ok program parsed)
run_parsed-Exits with_xrt xrt files program true ok parsed all help ok' = record {
  bounded = omega arith;
  usage = λ no_help. ground (arith, help, no_help);
  silent = λ no_help. ground (arith, help, no_help);
  helps = λ _. (refl, refl);
}
run_parsed-Exits with_xrt xrt files program false false parsed all no_help failed = record {
  bounded = omega arith;
  usage = λ _. (λ _. failed, λ _. refl);
  silent = λ _ _. refl;
  helps = λ help. ground (arith, help, no_help);
}
run_parsed-Exits with_xrt xrt files program false true parsed all no_help ok =
    let (metadata, reads, report) =
      run_gate1-Reports with_xrt xrt files parsed.options (all parsed.options.xclbin) in
    ran-IsExit xrt parsed.options _ parsed _ no_help ok report

-- Where every stream gives bytes, the program ends with an exit code of at most 3, in either build,
-- for every XRT, every environment and all arguments. With `--help` the code is 0; otherwise it is
-- 2 exactly when the arguments are refused. XRT is not called in these two cases.
pub gate1_main-Exits :
    (with_xrt : Bool) (xrt : Xrt) (files : Files) (getenv : Bytes → Option Bytes) (program : Bytes)
    (arguments : List (Option Bytes))
    → ((path : Bytes) → StreamBytes (files.stream path))
    → Exits
        (parse_gate1_arguments (some program ∷ arguments) (environment_options getenv))
        (gate1_main with_xrt xrt files getenv program arguments)
unfolding gate1_main
gate1_main-Exits with_xrt xrt files getenv program arguments all =
    run_parsed-Exits with_xrt xrt files program _ _ _ all refl refl
