-- ===== src/Base/Memory.antt =====
-- A flat memory that loops write into: an address reads what was written to it last.
use xdna_cpp.Base.Common.{
  ℕ, zero, suc, ◌+◌, ◌<◌, ◌≤◌, ◌≡◌, ◌≢◌, refl, ◌∙◌, ◌==◌, if◌then◌else◌, Bool-cases, inl, inr,
  arith,
}
use xdna_cpp.Base.Loop.{fold_range}

abbrev pub Memory : Type 0
Memory = ℕ → ℕ

abbrev pub update : Memory → ℕ → ℕ → Memory
update m a v b = if a == b then v else m b

-- A loop none of whose rounds writes to `a` leaves it alone.
pub fold_range_miss :
    (body : ℕ → Memory → Memory) (a n i : ℕ) (m : Memory)
    → ((k : ℕ) (m : Memory) → i ≤ k → k < i + n → body k m a ≡ m a)
    → fold_range n i body m a ≡ m a
unfolding fold_range
fold_range_miss body a zero i m misses = refl
fold_range_miss body a (suc n) i m misses =
    fold_range_miss body a n (i + 1) (body i m) (λ k s p q. misses k s (omega arith) (omega arith))
    ∙ misses i m (omega arith) (omega arith)

-- Where one round alone writes to `a`, and what it writes there does not depend on the memory, the
-- loop leaves that.
pub fold_range_hit :
    (body : ℕ → Memory → Memory) (a v n i h : ℕ) (m : Memory)
    → i ≤ h
    → h < i + n
    → ((k : ℕ) (m : Memory) → i ≤ k → k < i + n → k ≢ h → body k m a ≡ m a)
    → ((m : Memory) → body h m a ≡ v)
    → fold_range n i body m a ≡ v
unfolding fold_range
fold_range_hit body a v zero i h m low high misses hits = absurd (omega arith)
fold_range_hit body a v (suc n) i h m low high misses hits = elim (Bool-cases (i == h)) [
  | inl here ↦
      fold_range_miss body a n (i + 1) (body i m)
        (λ k s p q. misses k s (omega arith) (omega arith) (ground arith))
      ∙ (let e : i ≡ h = ground arith in rw e (hits m))
  | inr later ↦
      fold_range_hit body a v n (i + 1) h (body i m) (ground arith) (omega arith)
        (λ k s p q. misses k s (omega arith) (omega arith)) hits
]
