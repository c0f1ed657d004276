-- ===== src/Gate1/Report.antt =====
-- `read_gate1_metadata` and the state reports of src/xdna-gate1.cpp.
use xdna_cpp.Base.{
  Bool, true, ◌<◌, ◌≤◌, ℕ, ◌≡◌, refl, sym, subst, arith, false, Bytes, List, [], ◌∷◌, ◌++◌, zero,
  suc, length, take, ltb, if◌then◌else◌,
}
use xdna_cpp.Base.Int.{ℤ, pos, negsuc}
use xdna_cpp.Base.Outcome.{Outcome, done}
use xdna_cpp.Base.Text.{bytes, is_empty}
use xdna_cpp.Gate1.Image.Bounds.{AreBytes}
use xdna_cpp.Gate1.Metadata.{Gate1Metadata, default_metadata}
use xdna_cpp.Gate1.Metadata.Laws.{IsVerdict}
use xdna_cpp.Gate1.Parse.{parse_gate1_metadata}
use xdna_cpp.Gate1.Parse.Total.{parse_gate1_metadata_done}

-- What the stream does for a path: it does not open, or it has an end position and bytes to read.
pub data Stream : Type 0 where
  cannot_open : Stream
  opened : (end : ℤ) (content : Bytes) → Stream

abbrev with_error : Bytes → Outcome ⊥ Gate1Metadata
with_error message = done (record default_metadata { error = message })

-- The read fails where the bytes end before the image is full.
pub read_image : (path : Bytes) → ℕ → Bytes → Outcome ⊥ Gate1Metadata
read_image path zero content = with_error (bytes "selected xclbin is empty: " ++ path)
read_image path (suc n) content =
    if ltb (length content) (suc n)
    then with_error (bytes "cannot read selected xclbin: " ++ path)
    else parse_gate1_metadata (take (suc n) content)

pub read_gate1_metadata : (path : Bytes) → Stream → Outcome ⊥ Gate1Metadata
read_gate1_metadata path cannot_open = with_error (bytes "cannot open selected xclbin: " ++ path)
read_gate1_metadata path (opened (negsuc n) content) =
    with_error (bytes "selected xclbin is empty: " ++ path)
read_gate1_metadata path (opened (pos n) content) = read_image path n content

pub data Gate1State : Type 0 where
  image_found : Gate1State
  target_validated : Gate1State
  device_opened : Gate1State
  image_loaded : Gate1State
  buffers_created : Gate1State
  dispatch_submitted : Gate1State
  completion_observed : Gate1State
  output_reference_verified : Gate1State

abbrev pub gate1_state_name : Gate1State → Bytes
gate1_state_name image_found = bytes "image_found"
gate1_state_name target_validated = bytes "target_validated"
gate1_state_name device_opened = bytes "device_opened"
gate1_state_name image_loaded = bytes "image_loaded"
gate1_state_name buffers_created = bytes "buffers_created"
gate1_state_name dispatch_submitted = bytes "dispatch_submitted"
gate1_state_name completion_observed = bytes "completion_observed"
gate1_state_name output_reference_verified = bytes "output_reference_verified"

pub data Gate1StateResult : Type 0 where
  pass : Gate1StateResult
  fail : Gate1StateResult
  not_applicable : Gate1StateResult

abbrev pub gate1_result_name : Gate1StateResult → Bytes
gate1_result_name pass = bytes "pass"
gate1_result_name fail = bytes "fail"
gate1_result_name not_applicable = bytes "not_applicable"

pub record Gate1Status : Type 0 where
  pub state : Gate1State
  pub result : Gate1StateResult
  pub reason : Bytes

abbrev status_lines : List Gate1Status → Bytes
status_lines [] = []
status_lines (status ∷ statuses) =
    bytes "  "
    ++ gate1_state_name status.state
    ++ bytes ": "
    ++ gate1_result_name status.result
    ++ bytes " ("
    ++ status.reason
    ++ bytes ")\n"
    ++ status_lines statuses

abbrev pub format_gate1_status : List Gate1Status → Bytes
format_gate1_status statuses = bytes "Gate-1 states:\n" ++ status_lines statuses

take-AreBytes : (n : ℕ) (content : Bytes) → AreBytes content → AreBytes (take n content)
take-AreBytes zero content all = tt
take-AreBytes (suc n) [] all = tt
take-AreBytes (suc n) (b ∷ content) (small, all) = (small, take-AreBytes n content all)

with_error-IsVerdict :
    (message : Bytes)
    → is_empty message ≡ false
    → IsVerdict (record default_metadata { error = message })
with_error-IsVerdict message h = record {
  no_error = sym h;
  real = refl;
  phoenix = λ e. ground (arith, e);
}

-- The end of a file that has bytes.
abbrev pub EndsAt : ℤ → ℕ → Type 0
EndsAt (pos n) size = (n ≡ size) × (0 < size)
EndsAt (negsuc n) size = ⊥

-- What is returned for a path: an error that says which step failed, or the verdict on the file's bytes.
pub record IsFileVerdict (path : Bytes) (end : ℤ) (content : Bytes) (metadata : Gate1Metadata)
    : Type 0 where
  pub verdict : IsVerdict metadata
  pub empty_file :
      ((size : ℕ) → ¬ EndsAt end size) → metadata.error ≡ bytes "selected xclbin is empty: " ++ path
  pub cut_short :
      (size : ℕ)
      → EndsAt end size
      → length content < size
      → metadata.error ≡ bytes "cannot read selected xclbin: " ++ path
  pub parsed :
      (size : ℕ)
      → EndsAt end size
      → size ≤ length content
      → parse_gate1_metadata (take size content) ≡ done metadata

abbrev error_with : Bytes → Gate1Metadata
error_with message = record default_metadata { error = message }

read_image-IsFileVerdict :
    (path : Bytes) (n : ℕ) (content : Bytes) (short : Bool)
    → ltb (length content) (suc n) ≡ short
    → AreBytes content
    → (metadata : Gate1Metadata) × ((if short
          then done (error_with (bytes "cannot read selected xclbin: " ++ path))
          else parse_gate1_metadata (take (suc n) content))
        ≡ done metadata)
      × IsFileVerdict path (pos (suc n)) content metadata
read_image-IsFileVerdict path n content true h all = (
  error_with (bytes "cannot read selected xclbin: " ++ path),
  refl,
  record {
    verdict = with_error-IsVerdict _ refl;
    empty_file = λ empty. absurd (empty (suc n) (refl, omega arith));
    cut_short = λ size ends few. refl;
    parsed = λ size (same, some_bytes) enough. ground (arith, h, same, enough);
  },
)
read_image-IsFileVerdict path n content false h all =
    let (metadata, returns, verdict) =
      parse_gate1_metadata_done (take (suc n) content) (take-AreBytes (suc n) content all) in
    (
      metadata,
      returns,
      record {
        verdict = verdict;
        empty_file = λ empty. absurd (empty (suc n) (refl, omega arith));
        cut_short = λ size (same, some_bytes) few. ground (arith, h, same, few);
        parsed = λ size (same, some_bytes) enough.
            subst (λ (t : ℕ). parse_gate1_metadata (take t content) ≡ done metadata) same returns;
      },
    )

empty-IsFileVerdict :
    (path : Bytes) (end : ℤ) (content : Bytes)
    → ((size : ℕ) → ¬ EndsAt end size)
    → IsFileVerdict path end content (error_with (bytes "selected xclbin is empty: " ++ path))
empty-IsFileVerdict path end content empty = record {
  verdict = with_error-IsVerdict _ refl;
  empty_file = λ _. refl;
  cut_short = λ size ends few. absurd (empty size ends);
  parsed = λ size ends enough. absurd (empty size ends);
}

-- For every stream of bytes that opens, `read_gate1_metadata` returns, and its verdict is
-- consistent. Where the end position is not positive, the error is that the xclbin is empty; where
-- the stream gives fewer bytes than that, that it cannot be read; and otherwise the result is that
-- of `parse_gate1_metadata` on the bytes up to the end.
pub read_gate1_metadata-IsFileVerdict :
    (path : Bytes) (end : ℤ) (content : Bytes)
    → AreBytes content
    → (metadata : Gate1Metadata) × (read_gate1_metadata path (opened end content) ≡ done metadata)
      × IsFileVerdict path end content metadata
unfolding read_gate1_metadata read_image
read_gate1_metadata-IsFileVerdict path (negsuc n) content all =
    (_, refl, empty-IsFileVerdict path (negsuc n) content (λ size ends. ends))
read_gate1_metadata-IsFileVerdict path (pos zero) content all = (
  _,
  refl,
  empty-IsFileVerdict path (pos zero) content
      (λ size (same, some_bytes). omega (arith, same, some_bytes)),
)
read_gate1_metadata-IsFileVerdict path (pos (suc n)) content all =
    read_image-IsFileVerdict path n content (ltb (length content) (suc n)) refl all

-- What a stream reads are bytes.
abbrev pub StreamBytes : Stream → Type 0
StreamBytes cannot_open = Unit
StreamBytes (opened end content) = AreBytes content

pub read_gate1_metadata-done :
    (path : Bytes) (stream : Stream)
    → StreamBytes stream
    → (metadata : Gate1Metadata) × (read_gate1_metadata path stream ≡ done metadata)
unfolding read_gate1_metadata
read_gate1_metadata-done path cannot_open all = (_, refl)
read_gate1_metadata-done path (opened end content) all =
    let (metadata, returns, _) = read_gate1_metadata-IsFileVerdict path end content all in
    (metadata, returns)
