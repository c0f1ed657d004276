-- ===== src/Gate1/Harness/Calls.antt =====
-- What a run of the harness reports, and which calls of XRT it makes, in tools/xdna-gate1.cpp.
use xdna_cpp.Base.{
  ℕ, zero, suc, ◌↔◌, ◌≡◌, refl, sym, Bool, true, false, Bytes, List, [], ◌∷◌, ◌++◌, ◌⊎◌, inl, inr,
  map, take, ◌∙◌,
}
use xdna_cpp.Base.Outcome.{Exception, Outcome, done, thrown, fault}
use xdna_cpp.Gate1.Arguments.{Gate1Options}
use xdna_cpp.Gate1.Harness.{
  Xrt, XrtCall, open_device, read_xclbin, load_xclbin, create_buffer, read_elf, create_context,
  create_kernel, create_run, start_run, wait_run, Progress, Harness, ◌>>=◌, answered, called,
  invoke, resume,
}
use xdna_cpp.Gate1.Report.{
  Gate1State, image_found, target_validated, device_opened, image_loaded, buffers_created,
  dispatch_submitted, completion_observed, output_reference_verified, Gate1StateResult, pass, fail,
  not_applicable, Gate1Status,
}

abbrev pub all_states : List Gate1State
all_states =
    image_found ∷ target_validated ∷ device_opened ∷ image_loaded ∷ buffers_created
    ∷ dispatch_submitted ∷ completion_observed ∷ output_reference_verified ∷ []

abbrev none_reached : List Gate1StateResult → Bool
none_reached [] = true
none_reached (not_applicable ∷ results) = none_reached results
none_reached (pass ∷ results) = false
none_reached (fail ∷ results) = false

-- Some states pass, then at most one fails, and those behind it are not reached.
abbrev pub is_progression : List Gate1StateResult → Bool
is_progression [] = true
is_progression (pass ∷ results) = is_progression results
is_progression (fail ∷ results) = none_reached results
is_progression (not_applicable ∷ results) = none_reached results

-- The exit code by the state at which a progression ends: 1 if it failed, 0 at the last state, 3 before.
abbrev pub code_of : List Gate1StateResult → ℕ
code_of [] = 0
code_of (pass ∷ results) = code_of results
code_of (fail ∷ results) = 1
code_of (not_applicable ∷ []) = 0
code_of (not_applicable ∷ result ∷ results) = 3

-- The calls of a dispatch.
abbrev pub elf_calls : Gate1Options → (no_elf : Bool) → List XrtCall
elf_calls options true = []
elf_calls options false =
    read_elf options.elf
    ∷ create_context
    ∷ create_kernel options.kernel
    ∷ create_run
    ∷ start_run
    ∷ wait_run options.timeout_ms
    ∷ []

-- The calls behind the open.
abbrev pub image_calls : Gate1Options → (real no_elf : Bool) → List XrtCall
image_calls options false no_elf = []
image_calls options true no_elf =
    read_xclbin options.xclbin ∷ load_xclbin ∷ create_buffer 4096 ∷ elf_calls options no_elf

-- The calls that the build, the image and the options allow, in order.
abbrev pub allowed_calls :
    Gate1Options → (with_xrt exists validated real no_elf : Bool) → List XrtCall
allowed_calls options false exists validated real no_elf = []
allowed_calls options true false validated real no_elf = []
allowed_calls options true true false real no_elf = []
allowed_calls options true true true real no_elf =
    open_device options.device_index ∷ image_calls options real no_elf

abbrev pub all_calls : Gate1Options → List XrtCall
all_calls options = allowed_calls options true true true true false

-- The calls that are made when one is made as long as those before it return.
abbrev pub asked : Xrt → (before todo : List XrtCall) → List XrtCall
asked xrt before [] = before
asked xrt before (call ∷ todo) = elim (xrt.answer before call) [
  | inl e ↦ before ++ call ∷ []
  | inr n ↦ asked xrt (before ++ call ∷ []) todo
]

-- Every call was made, and the wait returned the state of a completed command.
abbrev pub Completes : Xrt → Gate1Options → List XrtCall → Type 0
Completes xrt options calls =
    (calls ≡ all_calls options)
    × (xrt.answer (take 9 (all_calls options)) (wait_run options.timeout_ms)
        ≡ inr xrt.ert_cmd_state_completed)

-- The report of a run that ends with an exit code.
pub record IsReport (xrt : Xrt) (options : Gate1Options) (allowed : List XrtCall) (code : ℕ)
    (progress : Progress) : Type 0 where
  pub states : map (λ status. status.state) progress.statuses ≡ all_states
  pub progression : is_progression (map (λ status. status.result) progress.statuses) ≡ true
  pub exit : code ≡ code_of (map (λ status. status.result) progress.statuses)
  pub calls : progress.calls ≡ asked xrt [] allowed
  pub completes : code ≡ 0 ↔ Completes xrt options progress.calls

abbrev pub Reports : Xrt → Gate1Options → List XrtCall → Outcome Exception ℕ × Progress → Type 0
Reports xrt options allowed (done code, progress) = IsReport xrt options allowed code progress
Reports xrt options allowed (thrown e, progress) = ⊥
Reports xrt options allowed (fault, progress) = ⊥

abbrev asked_answer : Xrt → List XrtCall → XrtCall → List XrtCall → Exception ⊎ ℕ → List XrtCall
asked_answer xrt before call todo (inl e) = before ++ call ∷ []
asked_answer xrt before call todo (inr n) = asked xrt (before ++ call ∷ []) todo

pub asked-cons :
    (xrt : Xrt) (before : List XrtCall) (call : XrtCall) (todo : List XrtCall)
    (answer : Exception ⊎ ℕ)
    → xrt.answer before call ≡ answer
    → asked xrt before (call ∷ todo) ≡ asked_answer xrt before call todo answer
asked-cons xrt before call todo (inl e) h = rw (asked, h)
asked-cons xrt before call todo (inr n) h = rw (asked, h)

-- A call returns or throws, and the calls that are left are asked or not.
module _ {A : Type 0} (xrt : Xrt) (call : XrtCall) (todo final : List XrtCall)
    (next : ℕ → Harness A) (progress : Progress) (P : Outcome Exception A × Progress → Type 0) where
  by_answer :
      (answer : Exception ⊎ ℕ)
      → xrt.answer progress.calls call ≡ answer
      → asked xrt progress.calls (call ∷ todo) ≡ final
      → ((n : ℕ)
          → xrt.answer progress.calls call ≡ inr n
          → asked xrt (progress.calls ++ call ∷ []) todo ≡ final
          → P (next n (called call progress)))
      → ((e : Exception)
          → xrt.answer progress.calls call ≡ inl e
          → progress.calls ++ call ∷ [] ≡ final
          → P (thrown e, called call progress))
      → P (resume (answered answer (called call progress)) next)
  by_answer (inl e) h so_far returns throws =
      throws e h (sym (asked-cons xrt progress.calls call todo _ h) ∙ so_far)
  by_answer (inr n) h so_far returns throws =
      returns n h (sym (asked-cons xrt progress.calls call todo _ h) ∙ so_far)

  pub invoke-cases :
      asked xrt progress.calls (call ∷ todo) ≡ final
      → ((n : ℕ)
          → xrt.answer progress.calls call ≡ inr n
          → asked xrt (progress.calls ++ call ∷ []) todo ≡ final
          → P (next n (called call progress)))
      → ((e : Exception)
          → xrt.answer progress.calls call ≡ inl e
          → progress.calls ++ call ∷ [] ≡ final
          → P (thrown e, called call progress))
      → P ((invoke xrt call >>= next) progress)
  invoke-cases = by_answer (xrt.answer progress.calls call) refl

abbrev result_at : List Gate1StateResult → ℕ → Gate1StateResult
result_at [] i = not_applicable
result_at (result ∷ results) zero = result
result_at (result ∷ results) (suc i) = result_at results i

abbrev reached : Gate1State → Gate1StateResult → Bytes → Gate1Status
reached state result reason = record { state = state; result = result; reason = reason }

-- A progress with the eight states, their results and reasons.
abbrev pub standing :
    (results : List Gate1StateResult) (a b c d e f g h : Bytes) (calls : List XrtCall)
    (output : Bytes)
    → Progress
standing results a b c d e f g h calls output = record {
  statuses =
      reached image_found (result_at results 0) a
      ∷ reached target_validated (result_at results 1) b
      ∷ reached device_opened (result_at results 2) c
      ∷ reached image_loaded (result_at results 3) d
      ∷ reached buffers_created (result_at results 4) e
      ∷ reached dispatch_submitted (result_at results 5) f
      ∷ reached completion_observed not_applicable g
      ∷ reached output_reference_verified not_applicable h
      ∷ [];
  calls = calls;
  output = output;
  errors = [];
}
