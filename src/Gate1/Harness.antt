-- ===== src/Gate1/Harness.antt =====
-- The state of the harness in tools/xdna-gate1.cpp: the statuses, the calls of XRT and the output.
pub mod Run
pub mod Calls
pub mod Laws
pub mod Exit
use xdna_cpp.Base.{
  ℕ, Bool, true, false, not, ◌&&◌, Bytes, List, [], ◌∷◌, ◌++◌, Option, none, some, ◌⊎◌, inl, inr,
  ◌==◌, if◌then◌else◌,
}
use xdna_cpp.Base.Outcome.{Exception, exception, unknown_exception, Outcome, done, thrown, fault}
use xdna_cpp.Base.Text.{bytes}
use xdna_cpp.Gate1.Report.{
  Gate1State, image_found, target_validated, device_opened, image_loaded, buffers_created,
  dispatch_submitted, completion_observed, output_reference_verified, Gate1StateResult, pass, fail,
  not_applicable, Gate1Status,
}

-- The calls of XRT that the harness makes.
pub data XrtCall : Type 0 where
  open_device : (index : ℕ) → XrtCall
  read_xclbin : (path : Bytes) → XrtCall
  load_xclbin : XrtCall
  create_buffer : (size : ℕ) → XrtCall
  read_elf : (path : Bytes) → XrtCall
  create_context : XrtCall
  create_kernel : (name : Bytes) → XrtCall
  create_run : XrtCall
  start_run : XrtCall
  wait_run : (timeout_ms : ℕ) → XrtCall

-- XRT, which is not in this repository: what a call answers behind those before it, an exception or a number (the
-- command state for a wait, of no use for another), and the constant of its headers.
pub record Xrt : Type 0 where
  pub answer : (before : List XrtCall) → XrtCall → Exception ⊎ ℕ
  pub ert_cmd_state_completed : ℕ

pub record Progress : Type 0 where
  pub statuses : List Gate1Status
  pub calls : List XrtCall
  pub output : Bytes
  pub errors : Bytes

-- Code of the harness: it changes the progress, and returns or throws.
abbrev pub Harness : Type 0 → Type 0
Harness A = Progress → Outcome Exception A × Progress

module _ {A B : Type 0} where
  abbrev pub resume :
      Outcome Exception A × Progress → (A → Harness B) → Outcome Exception B × Progress
  resume (done a, progress) next = next a progress
  resume (thrown e, progress) next = (thrown e, progress)
  resume (fault, progress) next = (fault, progress)

  infixl 5 ◌>>=◌
  abbrev pub ◌>>=◌ : Harness A → (A → Harness B) → Harness B
  ◌>>=◌ m next progress = resume (m progress) next

module _ {B : Type 0} where
  infixl 5 ◌>>◌
  abbrev pub ◌>>◌ : Harness (Unit {0}) → Harness B → Harness B
  m >> next = m >>= λ _. next

module _ {A : Type 0} where
  abbrev pub give : A → Harness A
  give a progress = (done a, progress)

  abbrev pub caught :
      Outcome Exception A × Progress → (Exception → Harness A) → Outcome Exception A × Progress
  caught (done a, progress) handler = (done a, progress)
  caught (thrown e, progress) handler = handler e progress
  caught (fault, progress) handler = (fault, progress)

  -- `try { body } catch (...) { handler }`
  abbrev pub try_catch : Harness A → (Exception → Harness A) → Harness A
  try_catch body handler progress = caught (body progress) handler

abbrev pub answered : Exception ⊎ ℕ → Progress → Outcome Exception ℕ × Progress
answered (inl e) progress = (thrown e, progress)
answered (inr n) progress = (done n, progress)

abbrev pub called : XrtCall → Progress → Progress
called call progress = record progress { calls = progress.calls ++ call ∷ [] }

abbrev pub invoke : Xrt → XrtCall → Harness ℕ
invoke xrt call progress = answered (xrt.answer progress.calls call) (called call progress)

-- `std::cout << text`
abbrev pub print : Bytes → Harness (Unit {0})
print text progress = (done tt, record progress { output = progress.output ++ text })

abbrev pub print_error : Bytes → Harness (Unit {0})
print_error text progress = (done tt, record progress { errors = progress.errors ++ text })

-- `==` of two states
abbrev pub state_number : Gate1State → ℕ
state_number image_found = 0
state_number target_validated = 1
state_number device_opened = 2
state_number image_loaded = 3
state_number buffers_created = 4
state_number dispatch_submitted = 5
state_number completion_observed = 6
state_number output_reference_verified = 7

abbrev pub same_state : Gate1State → Gate1State → Bool
same_state a b = state_number a == state_number b

abbrev pub not_applicable_yet : Gate1StateResult → Bool
not_applicable_yet pass = false
not_applicable_yet fail = false
not_applicable_yet not_applicable = true

abbrev not_attempted : Gate1State → Gate1Status
not_attempted state = record {
  state = state;
  result = not_applicable;
  reason = bytes "not attempted";
}

abbrev pub initial_statuses : List Gate1Status
initial_statuses =
    not_attempted image_found
    ∷ not_attempted target_validated
    ∷ not_attempted device_opened
    ∷ not_attempted image_loaded
    ∷ not_attempted buffers_created
    ∷ not_attempted dispatch_submitted
    ∷ not_attempted completion_observed
    ∷ not_attempted output_reference_verified
    ∷ []

abbrev in_front : Gate1Status → Option (List Gate1Status) → Option (List Gate1Status)
in_front status none = none
in_front status (some statuses) = some (status ∷ statuses)

-- The statuses with the first one of a state changed, as through the reference of `status_for`.
abbrev pub with_status :
    List Gate1Status → Gate1State → Gate1StateResult → Bytes → Option (List Gate1Status)
with_status [] state result reason = none
with_status (status ∷ statuses) state result reason = elim (same_state status.state state) [
  | true ↦ some (record status { result = result; reason = reason } ∷ statuses)
  | false ↦ in_front status (with_status statuses state result reason)
]

abbrev pub store_statuses : Option (List Gate1Status) → Harness (Unit {0})
store_statuses none progress = (thrown (exception (bytes "missing Gate-1 state")), progress)
store_statuses (some statuses) progress = (done tt, record progress { statuses = statuses })

abbrev pub set_status : Gate1State → Gate1StateResult → Bytes → Harness (Unit {0})
set_status state result reason progress =
    store_statuses (with_status progress.statuses state result reason) progress

abbrev pub has_failed_state : List Gate1Status → Bool
has_failed_state [] = false
has_failed_state (status ∷ statuses) = elim status.result [
  | fail ↦ true
  | pass ↦ has_failed_state statuses
  | not_applicable ↦ has_failed_state statuses
]

-- The reason of a state behind the first one that was not attempted.
abbrev unreached : Bytes → Gate1Status → Gate1Status
unreached reason status =
    if not_applicable_yet status.result && not (same_state status.state output_reference_verified)
    then record status { reason = bytes "not attempted: " ++ reason }
    else status

abbrev pub mark_behind : List Gate1Status → Gate1State → Bytes → (after : Bool) → List Gate1Status
mark_behind [] first reason after = []
mark_behind (status ∷ statuses) first reason after = elim (same_state status.state first) [
  | true ↦ status ∷ mark_behind statuses first reason true
  | false ↦
      (if after then unreached reason status else status) ∷ mark_behind statuses first reason after
]

abbrev pub mark_unreached : Gate1State → Bytes → Harness (Unit {0})
mark_unreached first reason progress =
    (done tt, record progress { statuses = mark_behind progress.statuses first reason false })

-- The loop at the end of `run_gate1`: a run was seen to complete.
abbrev pub completion_passed : List Gate1Status → Bool
completion_passed [] = false
completion_passed (status ∷ statuses) = elim (same_state status.state completion_observed) [
  | false ↦ completion_passed statuses
  | true ↦ elim status.result [
    | pass ↦ true
    | fail ↦ completion_passed statuses
    | not_applicable ↦ completion_passed statuses
  ]
]
