-- ===== src/Engine/Dot/Exact.antt =====
-- Sums of eight lanes in an exact arithmetic: there the order of the additions does not matter.
use xdna_cpp.Base.{ℕ, ◌≡◌}
use xdna_cpp.Base.Float.{Float32, float_zero}
use xdna_cpp.Base.Loop.{fold_range}
use xdna_cpp.Engine.Dot.{horizontal_add}
use xdna_cpp.Engine.Simd.{Lanes}

-- The laws of an arithmetic without rounding. IEEE floats keep them only where no result is rounded.
pub record IsExact (F : Float32) : Type 0 where
  pub add_comm : (a b : ℕ) → F.add a b ≡ F.add b a
  pub add_assoc : (a b c : ℕ) → F.add (F.add a b) c ≡ F.add a (F.add b c)
  pub add_zero : (a : ℕ) → F.add a float_zero ≡ a
  pub mul_comm : (a b : ℕ) → F.mul a b ≡ F.mul b a
  pub mul_assoc : (a b c : ℕ) → F.mul (F.mul a b) c ≡ F.mul a (F.mul b c)
  pub add_mul : (a b c : ℕ) → F.mul (F.add a b) c ≡ F.add (F.mul a c) (F.mul b c)
  pub fma-eq : (a b c : ℕ) → F.fma a b c ≡ F.add (F.mul a b) c

module _ (F : Float32) (e : IsExact F) where
  interchange : (a b c d : ℕ) → F.add (F.add a b) (F.add c d) ≡ F.add (F.add a c) (F.add b d)
  interchange a b c d = cc (
    e.add_assoc a b (F.add c d),
    e.add_assoc b c d,
    e.add_comm b c,
    e.add_assoc c b d,
    e.add_assoc a c (F.add b d),
  )

  pub horizontal_add-add :
      (f g : Lanes)
      → horizontal_add F (λ i. F.add (f i) (g i)) ≡ F.add (horizontal_add F f) (horizontal_add F g)
  unfolding horizontal_add
  horizontal_add-add f g = cc (
    interchange (f 0) (g 0) (f 4) (g 4),
    interchange (f 2) (g 2) (f 6) (g 6),
    interchange (f 1) (g 1) (f 5) (g 5),
    interchange (f 3) (g 3) (f 7) (g 7),
    interchange (F.add (f 0) (f 4)) (F.add (g 0) (g 4)) (F.add (f 2) (f 6)) (F.add (g 2) (g 6)),
    interchange (F.add (f 1) (f 5)) (F.add (g 1) (g 5)) (F.add (f 3) (f 7)) (F.add (g 3) (g 7)),
    interchange (F.add (F.add (f 0) (f 4)) (F.add (f 2) (f 6)))
        (F.add (F.add (g 0) (g 4)) (F.add (g 2) (g 6)))
        (F.add (F.add (f 1) (f 5)) (F.add (f 3) (f 7)))
        (F.add (F.add (g 1) (g 5)) (F.add (g 3) (g 7))),
  )

  pub horizontal_add-mul :
      (f : Lanes) (d : ℕ) → F.mul (horizontal_add F f) d ≡ horizontal_add F (λ i. F.mul (f i) d)
  unfolding horizontal_add
  horizontal_add-mul f d = simp e.add_mul

  pub horizontal_add-zero : horizontal_add F (λ _. float_zero) ≡ float_zero
  unfolding horizontal_add
  horizontal_add-zero = cc (e.add_zero float_zero)

  -- Eight terms added one after the other to `s`.
  pub fold_lanes :
      (t : ℕ → ℕ) (s : ℕ)
      → fold_range 8 0 (λ j acc. F.add acc (t j)) s ≡ F.add s (horizontal_add F t)
  unfolding horizontal_add fold_range
  fold_lanes t s =
      let a = F.add (t 0) (t 1) in
      let b = F.add (t 2) (t 3) in
      let c = F.add (t 4) (t 5) in
      let d = F.add (t 6) (t 7) in
      cc (
        e.add_assoc s (t 0) (t 1),
        e.add_assoc (F.add s a) (t 2) (t 3),
        e.add_assoc s a b,
        e.add_assoc (F.add s (F.add a b)) (t 4) (t 5),
        e.add_assoc (F.add (F.add s (F.add a b)) c) (t 6) (t 7),
        e.add_assoc (F.add s (F.add a b)) c d,
        e.add_assoc s (F.add a b) (F.add c d),
        interchange a b c d,
        interchange (t 0) (t 1) (t 4) (t 5),
        interchange (t 2) (t 3) (t 6) (t 7),
        interchange (F.add (t 0) (t 4)) (F.add (t 1) (t 5)) (F.add (t 2) (t 6)) (F.add (t 3) (t 7)),
      )
