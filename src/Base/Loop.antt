-- ===== src/Base/Loop.antt =====
-- Counted loops: `for (i = first; i < first + rounds; ++i)`.
use Prim.Native.Nat.add
use native.Mathlib.Nat.{add-zero}
use xdna_cpp.Base.Common.{ℕ, zero, suc, ◌+◌, ◌*◌, ◌≤◌, ◌<◌, ◌≡◌, refl, subst, sym, ◌∙◌, ap, arith}
use xdna_cpp.Base.Outcome.{Outcome, done, ◌>>=◌}

-- The loop whose body may throw or fault.
unfoldable pub for_range {ℓ} :
    {E : Type 0} {S : Type ℓ} → ℕ → ℕ → (ℕ → S → Outcome E S) → S → Outcome E S
for_range zero i body s = done s
for_range (suc left) i body s = body i s >>= for_range left (i + 1) body

-- The loop whose body always returns.
unfoldable pub fold_range {ℓ} : {S : Type ℓ} → ℕ → ℕ → (ℕ → S → S) → S → S
fold_range zero i body s = s
fold_range (suc left) i body s = fold_range left (i + 1) body (body i s)

-- An invariant that each round keeps holds behind the loop, which returns.
pub for_range_inv {ℓ κ} :
    {E : Type 0} {S : Type ℓ} (P : ℕ → S → Type κ) (body : ℕ → S → Outcome E S) (n i j : ℕ) (s : S)
    → ((k : ℕ) (s : S) → i ≤ k → k < j → P k s → (s' : S) × (body k s ≡ done s') × P (k + 1) s')
    → i + n ≡ j
    → P i s
    → (s' : S) × (for_range n i body s ≡ done s') × P j s'
unfolding for_range
for_range_inv P body zero i j s keep e h =
    let e' : i ≡ j = omega arith in (s, refl, subst (λ t. P t s) e' h)
for_range_inv P body (suc n) i j s keep e h =
    let (s₁, runs, h₁) = keep i s (omega arith) (omega arith) h in
    let (s₂, rest, h₂) =
      for_range_inv P body n (i + 1) j s₁ (λ k t p q. keep k t (omega arith) q) (omega arith) h₁ in
    (s₂, rw runs rest, h₂)

-- Where each round returns, the loop is the plain one.
pub for_range_done {ℓ} :
    {E : Type 0} {S : Type ℓ} (body : ℕ → S → Outcome E S) (step : ℕ → S → S) (n i : ℕ) (s : S)
    → ((k : ℕ) (s : S) → i ≤ k → k < i + n → body k s ≡ done (step k s))
    → for_range n i body s ≡ done (fold_range n i step s)
unfolding for_range fold_range
for_range_done body step zero i s runs = refl
for_range_done body step (suc n) i s runs = rw (runs i s (omega arith) (omega arith)) (
    for_range_done body step n (i + 1) (step i s) (λ k t p q. runs k t (omega arith) (omega arith)))

module _ {ℓ} {S : Type ℓ} where
  pub fold_range-cong :
      (f g : ℕ → S → S) (n i : ℕ) (s : S)
      → ((k : ℕ) (s : S) → i ≤ k → k < i + n → f k s ≡ g k s)
      → fold_range n i f s ≡ fold_range n i g s
  unfolding fold_range
  fold_range-cong f g zero i s same = refl
  fold_range-cong f g (suc n) i s same =
      ap (fold_range n (i + 1) f) (same i s (omega arith) (omega arith))
      ∙ fold_range-cong f g n (i + 1) (g i s) (λ k t p q. same k t (omega arith) (omega arith))

  -- Two loops in a row.
  pub fold_range-append :
      (f : ℕ → S → S) (n m i : ℕ) (s : S)
      → fold_range (n + m) i f s ≡ fold_range m (i + n) f (fold_range n i f s)
  unfolding fold_range
  fold_range-append f zero m i s = rw (add.zero, add-zero)
  fold_range-append f (suc n) m i s = rw (add.suc) (
      fold_range-append f n m (i + 1) (f i s)
      ∙ ap (λ (t : ℕ). fold_range m t f (fold_range n (i + 1) f (f i s))) (omega arith))

  -- A loop from `i` is one from 0 whose body adds `i`.
  pub fold_range-shift :
      (f : ℕ → S → S) (n i d : ℕ) (s : S)
      → fold_range n (d + i) f s ≡ fold_range n i (λ k. f (d + k)) s
  unfolding fold_range
  fold_range-shift f zero i d s = refl
  fold_range-shift f (suc n) i d s =
      ap (λ (t : ℕ). fold_range n t f (f (d + i) s)) (omega arith)
      ∙ fold_range-shift f n (i + 1) d (f (d + i) s)

  pub fold_range-from :
      (f : ℕ → S → S) (n i : ℕ) (s : S) → fold_range n i f s ≡ fold_range n 0 (λ k. f (i + k)) s
  fold_range-from f n i s =
      ap (λ (t : ℕ). fold_range n t f s) (sym (add-zero i)) ∙ fold_range-shift f n 0 i s

  -- A nested loop over blocks of `w` rounds is one loop.
  pub fold_range_blocks :
      (f : ℕ → S → S) (w b i : ℕ) (s : S)
      → fold_range b i (λ k. fold_range w (k * w) f) s ≡ fold_range (b * w) (i * w) f s
  unfolding fold_range
  fold_range_blocks f w zero i s =
      ap (λ (t : ℕ). fold_range t (i * w) f s) (let e : 0 ≡ 0 * w = omega arith in e)
  fold_range_blocks f w (suc b) i s =
      let first = fold_range w (i * w) f s in
      let start : (i + 1) * w ≡ i * w + w = omega arith in
      let rounds : w + b * w ≡ suc b * w = omega arith in
      fold_range_blocks f w b (i + 1) first
      ∙ ap (λ (t : ℕ). fold_range (b * w) t f first) start
      ∙ sym (fold_range-append f w (b * w) (i * w) s)
      ∙ ap (λ (t : ℕ). fold_range t (i * w) f s) rounds
