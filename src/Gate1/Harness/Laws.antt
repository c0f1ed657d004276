-- ===== src/Gate1/Harness/Laws.antt =====
-- The states that the harness reports, its calls of XRT and its exit code: each step of a run.
use xdna_cpp.Base.{
  ℕ, suc, length, ◌<◌, ◌≡◌, refl, Bool, true, false, Bytes, List, [], ◌∷◌, inr, ◌==◌, map, take,
  drop, ◌∙◌, arith, ap, ==_iff,
}
use xdna_cpp.Base.Outcome.{Exception, Outcome}
use xdna_cpp.Base.Text.{bytes, is_empty}
use xdna_cpp.Gate1.Arguments.{Gate1Options}
use xdna_cpp.Gate1.Harness.{
  Xrt, XrtCall, open_device, read_xclbin, load_xclbin, create_buffer, read_elf, create_context,
  create_kernel, create_run, start_run, wait_run, Progress, ◌>>◌, give, resume, caught,
}
use xdna_cpp.Gate1.Harness.Run.{
  dispatch_elf, observe, attempt_device, with_device, use_device, report, exit_code, fail_with,
}
use xdna_cpp.Gate1.Metadata.{Gate1Metadata}
use xdna_cpp.Gate1.Report.{device_opened, image_loaded, buffers_created, dispatch_submitted, pass}
use xdna_cpp.Gate1.Harness.Calls.{
  all_states, is_progression, code_of, elf_calls, image_calls, allowed_calls, all_calls, asked,
  Completes, IsReport, Reports, invoke-cases, standing,
}

module _ (xrt : Xrt) (options : Gate1Options) (output : Bytes) where
  -- What follows the attempts.
  abbrev pub ending : Outcome Exception (Unit {0}) × Progress → Outcome Exception ℕ × Progress
  ending r = resume r (λ _. report exit_code)

  abbrev no_image : Outcome Exception (Unit {0}) × Progress → Outcome Exception ℕ × Progress
  no_image r = ending (
      caught r (
        fail_with image_loaded (bytes "unknown exception from xrt::device::load_xclbin")
          (bytes "image_loaded did not pass")))

  -- The report of a run that does not end with 0.
  unfinished :
      (allowed : List XrtCall) (code : ℕ) (progress : Progress)
      → progress.calls ≡ asked xrt [] allowed
      → map (λ status. status.state) progress.statuses ≡ all_states
      → is_progression (map (λ status. status.result) progress.statuses) ≡ true
      → suc code ≡ code_of (map (λ status. status.result) progress.statuses)
      → ¬ Completes xrt options progress.calls
      → IsReport xrt options allowed (suc code) progress
  unfinished allowed code progress calls states progression exit never = record {
    states = states;
    progression = progression;
    exit = exit;
    calls = calls;
    completes = (λ z. absurd (omega (arith, z)), λ complete. absurd (never complete));
  }

  -- The report of a run that stops before the last call.
  pub stopped :
      (allowed : List XrtCall) (code : ℕ) (progress : Progress)
      → progress.calls ≡ asked xrt [] allowed
      → map (λ status. status.state) progress.statuses ≡ all_states
      → is_progression (map (λ status. status.result) progress.statuses) ≡ true
      → suc code ≡ code_of (map (λ status. status.result) progress.statuses)
      → length progress.calls < 10
      → IsReport xrt options allowed (suc code) progress
  stopped allowed code progress calls states progression exit few =
      unfinished allowed code progress calls states progression exit (λ (all, waited).
        let ten : length progress.calls ≡ 10 = ap length all in omega (arith, ten, few))

  abbrev no_buffers : Outcome Exception (Unit {0}) × Progress → Outcome Exception ℕ × Progress
  no_buffers r = no_image (
      caught r (
        fail_with buffers_created (bytes "unknown exception while creating XRT BO")
          (bytes "buffers_created did not pass")))

  abbrev no_dispatch :
      Outcome Exception (Unit {0}) × Progress → Outcome Exception (Unit {0}) × Progress
  no_dispatch r = caught r (
      fail_with dispatch_submitted (bytes "unknown exception during ELF context/kernel/run setup")
        (bytes "dispatch setup/submission failed"))

  observe-Reports :
      (completed : Bool) (state : ℕ) (a b c d e f g h : Bytes)
      → (state == xrt.ert_cmd_state_completed) ≡ completed
      → xrt.answer (take 9 (all_calls options)) (wait_run options.timeout_ms) ≡ inr state
      → all_calls options ≡ asked xrt [] (all_calls options)
      → Reports xrt options (all_calls options) (
          no_buffers (
            no_dispatch (
              observe completed state (
                standing
                  (pass ∷ pass ∷ pass ∷ pass ∷ pass ∷ pass ∷ [])
                  a
                  b
                  c
                  d
                  e
                  f
                  g
                  h
                  (all_calls options)
                  output))))
  observe-Reports true state a b c d e f g h same waited so_far = record {
    states = refl;
    progression = refl;
    exit = refl;
    calls = so_far;
    completes = (λ z. (refl, waited ∙ ap inr ((==_iff _ _).0 same)), λ complete. refl);
  }
  observe-Reports false state a b c d e f g h same waited so_far =
      unfinished _ 0 _ so_far refl refl refl
        (λ (_, complete). ground (arith, waited, complete, same))

  abbrev InDispatch : Outcome Exception (Unit {0}) × Progress → Type 0
  InDispatch r = Reports xrt options (all_calls options) (no_buffers (no_dispatch r))

  dispatch_elf-Reports :
      (no_elf : Bool) (a b c d e f g h : Bytes)
      → asked xrt (take 4 (all_calls options)) (elf_calls options no_elf)
        ≡ asked xrt [] (allowed_calls options true true true true no_elf)
      → Reports xrt options (allowed_calls options true true true true no_elf) (
          no_buffers (
            dispatch_elf xrt options no_elf (
              standing
                (pass ∷ pass ∷ pass ∷ pass ∷ pass ∷ [])
                a
                b
                c
                d
                e
                f
                g
                h
                (take 4 (all_calls options))
                output)))
  dispatch_elf-Reports true a b c d e f g h so_far =
      stopped _ 2 _ so_far refl refl refl (omega arith)
  dispatch_elf-Reports false a b c d e f g h so_far =
      invoke-cases xrt (read_elf options.elf) (drop 5 (all_calls options)) _ _ _ InDispatch so_far
        (λ n _ s.
          invoke-cases xrt create_context (drop 6 (all_calls options)) _ _ _ InDispatch s
            (λ n _ s.
              invoke-cases xrt (create_kernel options.kernel) (drop 7 (all_calls options)) _ _ _
                InDispatch s
                (λ n _ s.
                  invoke-cases xrt create_run (drop 8 (all_calls options)) _ _ _ InDispatch s
                    (λ n _ s.
                      invoke-cases xrt start_run (drop 9 (all_calls options)) _ _ _ InDispatch s
                        (λ n _ s.
                          invoke-cases xrt (wait_run options.timeout_ms) [] _ _ _ InDispatch s
                            (λ state waited s.
                              observe-Reports (state == xrt.ert_cmd_state_completed) state a b c d e
                                _ g h refl waited s)
                            (λ e threw s.
                              unfinished _ 0 _ s refl refl refl
                                (λ (_, complete). ground (arith, threw, complete))))
                        (λ e _ s. stopped _ 0 _ s refl refl refl (omega arith)))
                    (λ e _ s. stopped _ 0 _ s refl refl refl (omega arith)))
                (λ e _ s. stopped _ 0 _ s refl refl refl (omega arith)))
            (λ e _ s. stopped _ 0 _ s refl refl refl (omega arith)))
        (λ e _ s. stopped _ 0 _ s refl refl refl (omega arith))

  abbrev no_device : Outcome Exception Bool × Progress → Outcome Exception Bool × Progress
  no_device r = caught r (λ e.
      (fail_with device_opened (bytes "unknown exception from xrt::device(index)")
          (bytes "device_opened did not pass") e
        >> give false))

  use_device-Reports :
      (real : Bool) (a b c d e f g h mode : Bytes)
      → asked xrt (take 1 (all_calls options)) (image_calls options real (is_empty options.elf))
        ≡ asked xrt [] (allowed_calls options true true true real (is_empty options.elf))
      → Reports xrt options (allowed_calls options true true true real (is_empty options.elf)) (
          ending (
            use_device xrt options real mode (
              standing
                (pass ∷ pass ∷ pass ∷ [])
                a
                b
                c
                d
                e
                f
                g
                h
                (take 1 (all_calls options))
                output)))
  use_device-Reports false a b c d e f g h mode so_far =
      stopped _ 2 _ so_far refl refl refl (omega arith)
  use_device-Reports true a b c d e f g h mode so_far =
      let no_elf = is_empty options.elf in
      let image = load_xclbin ∷ create_buffer 4096 ∷ elf_calls options no_elf in
      let allowed = allowed_calls options true true true true no_elf in
      invoke-cases xrt (read_xclbin options.xclbin) image _ _ _
        (λ r. Reports xrt options allowed (no_image r)) so_far
        (λ n _ s.
          invoke-cases xrt load_xclbin (drop 1 image) _ _ _
            (λ r. Reports xrt options allowed (no_image r)) s
            (λ n _ s.
              invoke-cases xrt (create_buffer 4096) (elf_calls options no_elf) _ _ _
                (λ r. Reports xrt options allowed (no_buffers r)) s
                (λ n _ s. dispatch_elf-Reports no_elf a b c _ _ f g h s)
                (λ e _ s. stopped _ 0 _ s refl refl refl (omega arith)))
            (λ e _ s. stopped _ 0 _ s refl refl refl (omega arith)))
        (λ e _ s. stopped _ 0 _ s refl refl refl (omega arith))

  pub attempt_device-Reports :
      (with_xrt : Bool) (metadata : Gate1Metadata) (a b c d e f g h : Bytes)
      → Reports xrt options
          (allowed_calls options with_xrt true true metadata.real_hardware_image
            (is_empty options.elf))
          (ending (
            attempt_device xrt options with_xrt metadata
              (standing (pass ∷ pass ∷ []) a b c d e f g h [] output)))
  attempt_device-Reports false metadata a b c d e f g h =
      stopped _ 2 _ refl refl refl refl (omega arith)
  attempt_device-Reports true metadata a b c d e f g h =
      let real = metadata.real_hardware_image in
      let no_elf = is_empty options.elf in
      invoke-cases xrt (open_device options.device_index) (image_calls options real no_elf) _ _ _
        (λ r.
          Reports xrt options (allowed_calls options true true true real no_elf)
            (ending (resume (no_device r) (λ device. with_device xrt options device metadata))))
        refl (λ n _ s. use_device-Reports real a b _ d e f g h metadata.xclbin_mode_name s)
        (λ e _ s. stopped _ 0 _ s refl refl refl (omega arith))
