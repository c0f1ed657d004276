-- ===== src/Engine/Blocks.antt =====
-- In an exact arithmetic one block of the vector code adds the same as 32 steps of the scalar reference.
use xdna_cpp.Base.{ℕ, ◌+◌, ◌*◌, ◌%◌, ◌^◌, ◌<◌, ◌≡◌, refl, sym, ap, ◌∙◌, arith, Bytes, List, bit_or}
use mathlib.Core.Path.{ap₂}
use xdna_cpp.Base.Bits.{bit_or-shift_right}
use xdna_cpp.Base.Float.{Float32}
use xdna_cpp.Base.Loop.{fold_range, fold_range-append, fold_range-from}
use xdna_cpp.Engine.Dot as EngineDot
use xdna_cpp.Engine.Dot.{
  centred, low_nibbles, high_nibbles, sum_block, horizontal_add, accumulate, block_nibbles,
  dot_q4_0_f32_fast,
}
use xdna_cpp.Engine.Dot.Exact.{IsExact, horizontal_add-add, fold_lanes}
use xdna_cpp.Engine.Nibbles.{centred_low, centred_high, centred-srli_si128}
use xdna_cpp.Engine.Simd.{Lanes}
use xdna_cpp.Q4.Float.{fp16_to_float}
use xdna_cpp.Q4.Row.Dot.{dot_step}
use xdna_cpp.Q4.Row.Weight.{
  byte_at, block_scale, weight, weight_low_nibble, weight_high_nibble, activation,
}

-- The reference cuts the half to 16 bits, the engine does not: two bytes need no cut.
scale_same :
    (row : Bytes) (start b : ℕ)
    → ((a : ℕ) → byte_at row a < 256)
    → EngineDot.block_scale (byte_at row) start b ≡ block_scale row start b
scale_same row start b bytes =
    let low = byte_at row (start + b * 18) in
    let high = byte_at row (start + b * 18 + 1) in
    ap fp16_to_float (
      let joined : bit_or low (high * 2 ^ 8) ≡ bit_or low (high * 2 ^ 8) % 2 ^ 16 = omega (
        arith,
        bit_or-shift_right 8 high low,
        bytes (start + b * 18),
        bytes (start + b * 18 + 1),
      ) in
      joined)

horizontal_add-cong :
    (F : Float32) (f g : Lanes)
    → ((i : ℕ) → i < 8 → f i ≡ g i)
    → horizontal_add F f ≡ horizontal_add F g
unfolding horizontal_add
horizontal_add-cong F f g h = cc (
  h 0 (omega arith),
  h 1 (omega arith),
  h 2 (omega arith),
  h 3 (omega arith),
  h 4 (omega arith),
  h 5 (omega arith),
  h 6 (omega arith),
  h 7 (omega arith),
)

module _ (F : Float32) (e : IsExact F) {A : Type 0} (convert : A → ℕ) (row : Bytes) (start : ℕ)
    (xs : List A) (bytes : (a : ℕ) → byte_at row a < 256) where
  -- The product at index `k`.
  abbrev term : ℕ → ℕ
  term k = F.mul (weight F row start k) (activation convert xs k)

  lane_term :
      (v d k : ℕ)
      → weight F row start k ≡ F.mul v d
      → F.mul (F.mul v (activation convert xs k)) d ≡ term k
  lane_term v d k w =
      e.mul_assoc v (activation convert xs k) d
      ∙ ap (F.mul v) (e.mul_comm (activation convert xs k) d)
      ∙ sym (e.mul_assoc v d (activation convert xs k))
      ∙ ap (λ (t : ℕ). F.mul t (activation convert xs k)) (sym w)

  module _ (b : ℕ) where
    abbrev raw : Lanes
    raw = block_nibbles (byte_at row) start b

    abbrev d : ℕ
    d = block_scale row start b

    from_low :
        (j : ℕ) → j < 16 → weight F row start (b * 32 + j) ≡ F.mul (centred F (low_nibbles raw) j) d
    from_low j hj =
        weight_low_nibble F row start b j hj
        ∙ ap (λ (t : ℕ). F.mul t d)
            (sym (centred_low F raw (λ a. bytes (start + b * 18 + 2 + a)) j))

    from_high :
        (j : ℕ)
        → j < 16
        → weight F row start (b * 32 + j + 16) ≡ F.mul (centred F (high_nibbles raw) j) d
    from_high j hj =
        weight_high_nibble F row start b j hj
        ∙ ap (λ (t : ℕ). F.mul t d)
            (sym (centred_high F raw (λ a. bytes (start + b * 18 + 2 + a)) j))

    -- Lane `i` of a quarter of the block, from a weight and from where its index stands.
    quarter :
        (v k k' j : ℕ)
        → weight F row start k ≡ F.mul v d
        → k ≡ j
        → k' ≡ j
        → F.mul (F.mul v (activation convert xs k')) d ≡ term j
    quarter v k k' j w e₁ e₂ =
        ap (λ (t : ℕ). F.mul (F.mul v (activation convert xs t)) d) e₂
        ∙ lane_term v d j (ap (weight F row start) (sym e₁) ∙ w)

    lane_sum :
        (i : ℕ)
        → i < 8
        → F.mul (sum_block F raw (λ a. activation convert xs (b * 32 + a)) i) d
          ≡ F.add
              (F.add (term (b * 32 + i)) (term (b * 32 + 8 + i)))
              (F.add (term (b * 32 + 8 + 8 + i)) (term (b * 32 + 8 + 8 + 8 + i)))
    unfolding sum_block
    lane_sum i h =
        e.add_mul _ _ d
        ∙ ap₂ F.add
            (e.add_mul _ _ d
              ∙ ap₂ F.add (quarter _ (b * 32 + i) _ _ (from_low i (omega arith)) refl refl) (
                  quarter _ (b * 32 + (i + 8)) _ _
                    (from_low (i + 8) (omega arith)
                      ∙ ap (λ (t : ℕ). F.mul t d)
                          (sym (centred-srli_si128 F (low_nibbles raw) i h)))
                    (omega arith) (omega arith)))
            (e.add_mul _ _ d
              ∙ ap₂ F.add
                  (quarter _ (b * 32 + i + 16) _ _ (from_high i (omega arith)) (omega arith)
                    (omega arith))
                  (quarter _ (b * 32 + (i + 8) + 16) _ _
                    (from_high (i + 8) (omega arith)
                      ∙ ap (λ (t : ℕ). F.mul t d)
                          (sym (centred-srli_si128 F (high_nibbles raw) i h)))
                    (omega arith) (omega arith)))

    -- Eight steps of the reference.
    eight :
        (i s : ℕ)
        → fold_range 8 i (dot_step F convert row start xs) s
          ≡ F.add s (horizontal_add F (λ j. term (i + j)))
    eight i s =
        fold_range-from (dot_step F convert row start xs) 8 i s
        ∙ fold_lanes F e (λ j. term (i + j)) s

    -- The sum of the eight products from index `i`.
    abbrev group : ℕ → ℕ
    group i = horizontal_add F (λ j. term (i + j))

    lanes_sum :
        (acc : Lanes)
        → horizontal_add F (accumulate F (byte_at row) (activation convert xs) start b acc)
          ≡ F.add
              (F.add
                (F.add (group (b * 32)) (group (b * 32 + 8)))
                (F.add (group (b * 32 + 8 + 8)) (group (b * 32 + 8 + 8 + 8))))
              (horizontal_add F acc)
    lanes_sum acc =
        let t0 = λ (i : ℕ). term (b * 32 + i) in
        let t1 = λ (i : ℕ). term (b * 32 + 8 + i) in
        let t2 = λ (i : ℕ). term (b * 32 + 8 + 8 + i) in
        let t3 = λ (i : ℕ). term (b * 32 + 8 + 8 + 8 + i) in
        horizontal_add-cong F _
          (λ i. F.add (F.add (F.add (t0 i) (t1 i)) (F.add (t2 i) (t3 i))) (acc i))
          (λ i h.
            e.fma-eq _ _ (acc i)
            ∙ ap
                (λ (s : ℕ).
                  F.add (F.mul (sum_block F raw (λ a. activation convert xs (b * 32 + a)) i) s)
                    (acc i))
                (scale_same row start b bytes)
            ∙ ap (λ (s : ℕ). F.add s (acc i)) (lane_sum i h))
        ∙ horizontal_add-add F e (λ i. F.add (F.add (t0 i) (t1 i)) (F.add (t2 i) (t3 i))) acc
        ∙ ap (λ (s : ℕ). F.add s (horizontal_add F acc))
            (horizontal_add-add F e (λ i. F.add (t0 i) (t1 i)) (λ i. F.add (t2 i) (t3 i))
              ∙ ap₂ F.add (horizontal_add-add F e t0 t1) (horizontal_add-add F e t2 t3))

    groups_sum :
        (s : ℕ)
        → fold_range 32 (b * 32) (dot_step F convert row start xs) s
          ≡ F.add
              (F.add
                (F.add (F.add s (group (b * 32))) (group (b * 32 + 8)))
                (group (b * 32 + 8 + 8)))
              (group (b * 32 + 8 + 8 + 8))
    groups_sum s =
        let step = dot_step F convert row start xs in
        fold_range-append step 8 24 (b * 32) s
        ∙ ap (fold_range 24 (b * 32 + 8) step) (eight (b * 32) s)
        ∙ fold_range-append step 8 16 (b * 32 + 8) _
        ∙ ap (fold_range 16 (b * 32 + 8 + 8) step) (eight (b * 32 + 8) _)
        ∙ fold_range-append step 8 8 (b * 32 + 8 + 8) _
        ∙ ap (fold_range 8 (b * 32 + 8 + 8 + 8) step) (eight (b * 32 + 8 + 8) _)
        ∙ eight (b * 32 + 8 + 8 + 8) _

    -- One block adds the same to the lanes' sum as 32 steps of the reference.
    pub block_same :
        (acc : Lanes)
        → horizontal_add F (accumulate F (byte_at row) (activation convert xs) start b acc)
          ≡ fold_range 32 (b * 32) (dot_step F convert row start xs) (horizontal_add F acc)
    block_same acc =
        let s = horizontal_add F acc in
        let g0 = group (b * 32) in
        let g1 = group (b * 32 + 8) in
        let g2 = group (b * 32 + 8 + 8) in
        let g3 = group (b * 32 + 8 + 8 + 8) in
        cc (
          lanes_sum acc,
          groups_sum s,
          e.add_comm (F.add (F.add g0 g1) (F.add g2 g3)) s,
          e.add_assoc s (F.add g0 g1) (F.add g2 g3),
          e.add_assoc s g0 g1,
          e.add_assoc (F.add (F.add s g0) g1) g2 g3,
        )
