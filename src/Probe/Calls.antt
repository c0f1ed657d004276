-- ===== src/Probe/Calls.antt =====
-- The probe's result and its system calls on every path.
use xdna_cpp.Base.{
  ℕ, ◌≡◌, refl, Bool, true, false, Bytes, List, [], ◌∷◌, ◌++◌, Option, none, some, ◌⊎◌, inl, inr,
  map,
}
use xdna_cpp.Probe.{
  Kernel, KernelProbe, FirmwareVersion, AieMetadata, Syscall, opened, metadata_query,
  firmware_query, closed, with_metadata, with_firmware, probe_opened, probe_kernel, empty_probe,
}

-- The calls, where `held` is the descriptor that is open before them: one is opened only where none is held, only the
-- held one is asked or closed, and none is held at the end.
abbrev pub Balanced : (held : Option ℕ) → List Syscall → Type 0
Balanced none [] = Unit
Balanced (some held) [] = ⊥
Balanced none (opened descriptor ∷ calls) = Balanced (some descriptor) calls
Balanced (some held) (opened descriptor ∷ calls) = ⊥
Balanced none (metadata_query descriptor ∷ calls) = ⊥
Balanced (some held) (metadata_query descriptor ∷ calls) =
    (descriptor ≡ held) × Balanced (some held) calls
Balanced none (firmware_query descriptor ∷ calls) = ⊥
Balanced (some held) (firmware_query descriptor ∷ calls) =
    (descriptor ≡ held) × Balanced (some held) calls
Balanced none (closed descriptor ∷ calls) = ⊥
Balanced (some held) (closed descriptor ∷ calls) = (descriptor ≡ held) × Balanced none calls

-- The descriptors that are opened.
abbrev pub descriptors : List Syscall → List ℕ
descriptors [] = []
descriptors (opened descriptor ∷ calls) = descriptor ∷ descriptors calls
descriptors (metadata_query descriptor ∷ calls) = descriptors calls
descriptors (firmware_query descriptor ∷ calls) = descriptors calls
descriptors (closed descriptor ∷ calls) = descriptors calls

abbrev pub failure : {A : Type 0} → ℕ ⊎ A → List ℕ
failure (inl error) = error ∷ []
failure (inr answer) = []

abbrev pub answer_of : {A : Type 0} → ℕ ⊎ A → List A
answer_of (inl error) = []
answer_of (inr answer) = answer ∷ []

-- What the kernel's answers fail with, in the order of the calls.
abbrev pub failures : Kernel → ℕ ⊎ ℕ → List ℕ
failures kernel (inl error) = error ∷ []
failures kernel (inr descriptor) =
    failure (kernel.query_metadata descriptor) ++ failure (kernel.query_firmware descriptor)

abbrev is_some : {A : Type 0} → Option A → Bool
is_some none = false
is_some (some a) = true

abbrev is_answer : {A : Type 0} → ℕ ⊎ A → Bool
is_answer (inl error) = false
is_answer (inr a) = true

-- The probe of a node that opens with an answer.
abbrev pub answered_metadata : Kernel → ℕ ⊎ ℕ → Bool
answered_metadata kernel (inl error) = false
answered_metadata kernel (inr descriptor) = is_answer (kernel.query_metadata descriptor)

abbrev pub answered_firmware : Kernel → ℕ ⊎ ℕ → Bool
answered_firmware kernel (inl error) = false
answered_firmware kernel (inr descriptor) = is_answer (kernel.query_firmware descriptor)

-- The flags and errors agree with the kernel's answers, and no descriptor stays open.
pub record IsProbe (kernel : Kernel) (answer : ℕ ⊎ ℕ) (probe : KernelProbe) (calls : List Syscall)
    : Type 0 where
  pub opened_if : probe.device_opened ≡ is_answer answer
  pub metadata_if : probe.metadata_query_attempted ≡ is_answer answer
  pub firmware_if : probe.firmware_query_attempted ≡ is_answer answer
  pub has_aie : is_some probe.aie ≡ answered_metadata kernel answer
  pub has_firmware : is_some probe.firmware ≡ answered_firmware kernel answer
  pub one_error_each : map (λ e. e.error_number) probe.errors ≡ failures kernel answer
  pub opens : descriptors calls ≡ answer_of answer
  pub balanced : Balanced none calls

module _ (kernel : Kernel) (probe : KernelProbe) where
  -- What the two queries add.
  pub queries_errors :
      (metadata : ℕ ⊎ AieMetadata) (firmware : ℕ ⊎ FirmwareVersion)
      → probe.errors ≡ []
      → probe.aie ≡ none
      → probe.firmware ≡ none
      → (map
            (λ e. e.error_number)
            (with_firmware kernel (with_metadata kernel probe metadata) firmware).errors
          ≡ failure metadata ++ failure firmware)
        × (is_some (with_firmware kernel (with_metadata kernel probe metadata) firmware).aie
            ≡ is_answer metadata)
        × (is_some (with_firmware kernel (with_metadata kernel probe metadata) firmware).firmware
            ≡ is_answer firmware)
        × ((with_firmware kernel
              (with_metadata kernel probe metadata)
              firmware).metadata_query_attempted
            ≡ true)
        × ((with_firmware kernel
              (with_metadata kernel probe metadata)
              firmware).firmware_query_attempted
            ≡ true)
  queries_errors (inl e) (inl f) none_yet a b = rw (none_yet, a, b) (refl, refl, refl, refl, refl)
  queries_errors (inl e) (inr f) none_yet a b = rw (none_yet, a) (refl, refl, refl, refl, refl)
  queries_errors (inr m) (inl f) none_yet a b = rw (none_yet, b) (refl, refl, refl, refl, refl)
  queries_errors (inr m) (inr f) none_yet a b = rw (none_yet) (refl, refl, refl, refl, refl)

by_open :
    (kernel : Kernel) (accel_node : Bytes) (answer : ℕ ⊎ ℕ)
    → IsProbe kernel answer
        (probe_opened kernel (empty_probe accel_node) answer).0
        (probe_opened kernel (empty_probe accel_node) answer).1
by_open kernel accel_node (inl error) = record {
  opened_if = refl;
  metadata_if = refl;
  firmware_if = refl;
  has_aie = refl;
  has_firmware = refl;
  one_error_each = refl;
  opens = refl;
  balanced = tt;
}
by_open kernel accel_node (inr descriptor) =
    let (errors, aie, firmware, attempted, asked) =
      queries_errors kernel (empty_probe accel_node) (kernel.query_metadata descriptor)
        (kernel.query_firmware descriptor) refl refl refl in
    record {
      opened_if = refl;
      metadata_if = attempted;
      firmware_if = asked;
      has_aie = aie;
      has_firmware = firmware;
      one_error_each = errors;
      opens = refl;
      balanced = (refl, (refl, (refl, tt)));
    }

-- Whatever the kernel answers: a descriptor is opened exactly when `open` gave it, each query is
-- made on it while it is open, and it is closed before `probe_kernel` returns. The probe is opened
-- and both queries are attempted exactly then; it has the metadata and the firmware version exactly
-- when their query was answered; and its errors have the numbers of the calls that failed, in
-- order, one for each.
pub probe_kernel-IsProbe :
    (kernel : Kernel) (accel_node : Bytes)
    → IsProbe kernel
        (kernel.open_node accel_node)
        (probe_kernel kernel accel_node).0
        (probe_kernel kernel accel_node).1
unfolding probe_kernel
probe_kernel-IsProbe kernel accel_node = by_open kernel accel_node (kernel.open_node accel_node)
