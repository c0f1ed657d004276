-- ===== src/Device/Contains.antt =====
-- Where `split_first` of the texts in src/xdna-device.cpp finds a needle.
use xdna_cpp.Base.{
  ℕ, suc, ◌≡◌, refl, ap, ◌∙◌, true, Bytes, [], ◌∷◌, ◌++◌, Option, none, some, length, arith, drop,
}
use xdna_cpp.Gate1.Json.{after_prefix}
use xdna_cpp.Gate1.Json.Quoted.{after_prefix-append}
use xdna_cpp.Device.{split_first}
use xdna_cpp.Device.Sysfs.{is_some}

-- The needle stands somewhere in the text.
abbrev pub Contains : (needle text : Bytes) → Type 0
Contains needle text = (before : Bytes) × (behind : Bytes) × (text ≡ before ++ (needle ++ behind))

after_prefix-some :
    (needle text rest : Bytes) → after_prefix needle text ≡ some rest → text ≡ needle ++ rest
after_prefix-some [] text rest h = ground (arith, h)
after_prefix-some (n ∷ needle) [] rest h = ground (arith, h)
after_prefix-some (n ∷ needle) (c ∷ text) rest h =
    ground (arith, h, after_prefix-some needle text rest)

-- One round of the search, by what stands at the front.
module _ (needle seen text : Bytes) (c : ℕ) where
  abbrev round : Option Bytes → Option (Bytes × Bytes)
  round first = elim first [
    | some rest ↦ some (seen, rest)
    | none ↦ split_first needle (c ∷ seen) text
  ]

  round-Contains :
      (first : Option Bytes)
      → after_prefix needle (c ∷ text) ≡ first
      → (is_some (split_first needle (c ∷ seen) text) ≡ true → Contains needle text)
      → is_some (round first) ≡ true
      → Contains needle (c ∷ text)
  round-Contains (some rest) h later found = ([], rest, after_prefix-some needle (c ∷ text) rest h)
  round-Contains none h later found =
      let (before, behind, e) = later found in (c ∷ before, behind, ap (λ t. c ∷ t) e)

  Contains-round :
      (first : Option Bytes)
      → after_prefix needle (c ∷ text) ≡ first
      → (Contains needle text → is_some (split_first needle (c ∷ seen) text) ≡ true)
      → Contains needle (c ∷ text)
      → is_some (round first) ≡ true
  Contains-round (some rest) h later contains = refl
  Contains-round none h later ([], behind, e) =
      let at_front : after_prefix needle (c ∷ text) ≡ some behind =
        ap (after_prefix needle) e ∙ after_prefix-append needle behind in
      ground (arith, h, at_front)
  Contains-round none h later (b ∷ before, behind, e) = later (before, behind, ap (drop 1) e)

pub split_first-Contains :
    (needle seen text : Bytes)
    → is_some (split_first needle seen text) ≡ true
    → Contains needle text
split_first-Contains needle seen [] found = ground (arith, found)
split_first-Contains needle seen (c ∷ text) found =
    round-Contains needle seen text c (after_prefix needle (c ∷ text)) refl
      (split_first-Contains needle (c ∷ seen) text) found

pub Contains-split_first :
    (n : ℕ) (needle seen text : Bytes)
    → Contains (n ∷ needle) text
    → is_some (split_first (n ∷ needle) seen text) ≡ true
Contains-split_first n needle seen [] ([], behind, e) =
    let size : 0 ≡ suc (length (needle ++ behind)) = ap length e in absurd (omega (arith, size))
Contains-split_first n needle seen [] (b ∷ before, behind, e) =
    let size : 0 ≡ suc (length (before ++ (n ∷ needle ++ behind))) = ap length e in
    absurd (omega (arith, size))
Contains-split_first n needle seen (c ∷ text) contains =
    Contains-round (n ∷ needle) seen text c (after_prefix (n ∷ needle) (c ∷ text)) refl
      (Contains-split_first n needle (c ∷ seen) text) contains
