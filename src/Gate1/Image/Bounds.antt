-- ===== src/Gate1/Image/Bounds.antt =====
-- The reads stay inside the image.
use xdna_cpp.Base.{
  ℕ, zero, suc, ◌+◌, ◌^◌, ◌≤◌, ◌<◌, ◌≡◌, refl, Bytes, [], ◌∷◌, length, arith, Option, none, some,
  Bool, true, false, if◌then◌else◌, ◌==◌, ltb, ◌||◌,
}
use xdna_cpp.Base.Bits.{bit_or-shift_right}
use xdna_cpp.Base.Loop.{for_range}
use xdna_cpp.Base.Outcome.{Outcome, at}
use xdna_cpp.Base.Text.{Returns, Returns-bind, Returns-elim}
use xdna_cpp.Base.Word.{size_max}
use xdna_cpp.Gate1.Image.{
  Section, read_u16, read_u32, read_u64, range, fixed_string, is_outside, section_entry,
  find_section_from, find_section, section_text, sections_inside,
}

-- The code returns.
abbrev pub Any {ℓ} : {A : Type ℓ} → A → Type 0
Any a = Unit

pub at-Returns : (image : Bytes) (i : ℕ) → i < length image → Returns {E = ⊥} Any (at image i)
at-Returns [] i h = absurd (omega (arith, h))
at-Returns (b ∷ image) zero h = tt
at-Returns (b ∷ image) (suc i) h = at-Returns image i (omega arith)

module _ (image : Bytes) where
  pub read_u16-Returns : (o : ℕ) → o + 2 ≤ length image → Returns Any (read_u16 image o)
  unfolding read_u16
  read_u16-Returns o h =
      Returns-bind Any Any _ _ (at-Returns image o (omega arith))
        (λ a _. Returns-bind Any Any _ _ (at-Returns image (o + 1) (omega arith)) (λ b _. tt))

  pub read_u32-Returns : (o : ℕ) → o + 4 ≤ length image → Returns Any (read_u32 image o)
  unfolding read_u32
  read_u32-Returns o h = Returns-bind Any Any _ _ (at-Returns image o (omega arith)) (λ a _.
      Returns-bind Any Any _ _ (at-Returns image (o + 1) (omega arith)) (λ b _.
        Returns-bind Any Any _ _ (at-Returns image (o + 2) (omega arith))
          (λ c _. Returns-bind Any Any _ _ (at-Returns image (o + 3) (omega arith)) (λ d _. tt))))

  for_range-Returns :
      {S : Type 0} (body : ℕ → S → Outcome ⊥ S) (n i : ℕ) (s : S)
      → ((k : ℕ) (s : S) → k < i + n → Returns Any (body k s))
      → Returns Any (for_range n i body s)
  unfolding for_range
  for_range-Returns body zero i s h = tt
  for_range-Returns body (suc n) i s h =
      Returns-bind Any Any _ _ (h i s (omega arith))
        (λ s' _. for_range-Returns body n (i + 1) s' (λ k t lt. h k t (omega arith)))

  pub read_u64-Returns : (o : ℕ) → o + 8 ≤ length image → Returns Any (read_u64 image o)
  unfolding read_u64
  read_u64-Returns o h =
      for_range-Returns _ 8 0 0
        (λ k s lt. Returns-bind Any Any _ _ (at-Returns image (o + k) (omega arith)) (λ b _. tt))

  pub range-Returns : (o n : ℕ) → o + n ≤ length image → Returns Any (range image o n)
  range-Returns o n h = ground arith

  pub fixed_string-Returns : (o n : ℕ) → o + n ≤ length image → Returns Any (fixed_string image o n)
  unfolding fixed_string
  fixed_string-Returns o n h = Returns-bind Any Any _ _ (range-Returns o n h) (λ t _. tt)

  -- A section that was found lies inside the image.
  abbrev pub Inside : Option Section → Type 0
  Inside none = Unit
  Inside (some section) = section.offset + section.size ≤ length image

  found :
      (b : Bool) (section : Section)
      → (b ≡ false → section.offset + section.size ≤ length image)
      → Inside (if b then none else some section)
  found true section h = tt
  found false section h = h refl

  pub find_section_from-Returns :
      (kind left index : ℕ)
      → section_entry (index + left) ≤ length image
      → Returns Inside (find_section_from image kind left index)
  unfolding find_section_from
  find_section_from-Returns kind zero index h = tt
  find_section_from-Returns kind (suc left) index h =
      let next = find_section_from-Returns kind left (index + 1) (omega arith) in
      Returns-bind Any Inside _ _ (read_u32-Returns (section_entry index) (omega arith))
        (λ entry_kind _.
          Returns-elim Inside (entry_kind == kind) _ _
            (λ _.
              Returns-bind Any Inside _ _
                (read_u64-Returns (section_entry index + 24) (omega arith))
                (λ o _.
                  Returns-bind Any Inside _ _
                    (read_u64-Returns (section_entry index + 32) (omega arith))
                    (λ n _.
                      found (is_outside image o n || ltb size_max o || ltb size_max n) _
                        (λ e. ground arith))))
            (λ _. next))

  pub find_section-Returns :
      (kind count : ℕ)
      → section_entry count ≤ length image
      → Returns Inside (find_section image kind count)
  unfolding find_section
  find_section-Returns kind count h = find_section_from-Returns kind count 0 (omega arith)

  pub section_text-Returns :
      (section : Section)
      → section.offset + section.size ≤ length image
      → Returns Any (section_text image section)
  unfolding section_text
  section_text-Returns section h = range-Returns section.offset section.size h

  pub sections_inside-Returns :
      (left index : ℕ)
      → section_entry (index + left) ≤ length image
      → Returns Any (sections_inside image left index)
  unfolding sections_inside
  sections_inside-Returns zero index h = tt
  sections_inside-Returns (suc left) index h =
      let next = sections_inside-Returns left (index + 1) (omega arith) in
      Returns-bind Any Any _ _ (read_u64-Returns (section_entry index + 24) (omega arith)) (λ o _.
        Returns-bind Any Any _ _ (read_u64-Returns (section_entry index + 32) (omega arith))
          (λ n _. Returns-elim Any (is_outside image o n) _ _ (λ _. tt) (λ _. next)))

-- A vector of bytes.
abbrev pub AreBytes : Bytes → Type 0
AreBytes [] = Unit
AreBytes (b ∷ image) = (b < 256) × AreBytes image

at-byte :
    (image : Bytes) (i : ℕ)
    → AreBytes image
    → i < length image
    → Returns {E = ⊥} (λ b. b < 256) (at image i)
at-byte [] i all h = absurd (omega (arith, h))
at-byte (b ∷ image) zero (small, all) h = small
at-byte (b ∷ image) (suc i) (small, all) h = at-byte image i all (omega arith)

pub read_u16-lt :
    (image : Bytes) (o : ℕ)
    → AreBytes image
    → o + 2 ≤ length image
    → Returns (λ v. v < 2 ^ 16) (read_u16 image o)
unfolding read_u16
read_u16-lt image o all h =
    Returns-bind (λ b. b < 256) (λ v. v < 2 ^ 16) _ _ (at-byte image o all (omega arith))
      (λ a small.
        Returns-bind (λ b. b < 256) (λ v. v < 2 ^ 16) _ _ (at-byte image (o + 1) all (omega arith))
          (λ b small'. omega (arith, bit_or-shift_right 8 b a)))
