-- ===== src/Base/Outcome.antt =====
-- What a call of C++ does: it returns, it throws, or it has undefined behaviour.
use xdna_cpp.Base.Common.{ℕ, Bytes, Bool, true, false, List, none, some, get_elem?}

-- `thrown` carries the exception, `fault` is a read or a write outside an object or through a null pointer.
pub data Outcome {ℓ} (E : Type 0) (A : Type ℓ) : Type ℓ where
  done : A → Outcome E A
  thrown : E → Outcome E A
  fault : Outcome E A

module _ {ℓ κ} {E : Type 0} {A : Type ℓ} {B : Type κ} where
  infixl 5 ◌>>=◌
  abbrev pub ◌>>=◌ : Outcome E A → (A → Outcome E B) → Outcome E B
  done a >>= f = f a
  thrown e >>= f = thrown e
  fault >>= f = fault

module _ {ℓ} {E : Type 0} {B : Type ℓ} where
  infixl 5 ◌>>◌
  abbrev pub ◌>>◌ : Outcome E (Unit {0}) → Outcome E B → Outcome E B
  m >> k = m >>= λ _. k

-- What a catch clause distinguishes: an `std::exception` with its text, or anything else.
pub data Exception : Type 0 where
  exception : (what : Bytes) → Exception
  unknown_exception : Exception

-- The text of an exception, or the message of `catch (...)`.
abbrev pub message_of : Exception → (unknown : Bytes) → Bytes
message_of (exception what) unknown = what
message_of unknown_exception unknown = unknown

-- `if (failed) throw e;`
abbrev pub throw_if : {E : Type 0} → Bool → E → Outcome E (Unit {0})
throw_if true e = thrown e
throw_if false e = done tt

-- `a[i]`
abbrev pub at {ℓ} : {E : Type 0} {A : Type ℓ} → List A → ℕ → Outcome E A
at xs i = elim (get_elem? xs i) [ none ↦ fault | some x ↦ done x ]
