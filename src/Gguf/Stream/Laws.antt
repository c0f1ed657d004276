-- ===== src/Gguf/Stream/Laws.antt =====
-- What the stream gives where a text stands at its position.
use xdna_cpp.Base.{
  ℕ, zero, suc, ◌+◌, ◌-◌, ◌*◌, ◌/◌, ◌%◌, ◌^◌, ◌≡◌, ◌<◌, ◌≤◌, refl, sym, subst, ap, ◌∙◌, Bool, true,
  false, Bytes, List, [], ◌∷◌, ◌++◌, length, take, drop, ltb, arith, length-append,
}
use Prim.Native.Nat.add
use native.Mathlib.Nat.{pow-suc, add-zero}
use mathlib.Core.List.{append_assoc, append-nil}
use xdna_cpp.Gguf.Stream.{
  FileStream, read_bytes, read_number, overwritten, read_string, seek_cur, padded,
}

-- A number of `size` bytes, the lowest first.
unfoldable pub encode_number : (size n : ℕ) → Bytes
encode_number zero n = []
encode_number (suc size) n = n % 256 ∷ encode_number size (n / 256)

unfoldable pub encode_string : Bytes → Bytes
encode_string text = encode_number 8 (length text) ++ text

-- The stream is good, and `rest` is what is left of the file.
pub record Ahead (f : FileStream) (rest : Bytes) : Type 0 where
  pub good : f.failed ≡ false
  pub left : drop f.position f.content ≡ rest

abbrev pub advanced : ℕ → FileStream → FileStream
advanced n f = record f { position = f.position + n; failed = false }

drop-nil : {A : Type 0} (n : ℕ) → drop {A = A} n [] ≡ []
drop-nil zero = refl
drop-nil (suc n) = refl

drop-add : {A : Type 0} (n m : ℕ) (xs : List A) → drop (n + m) xs ≡ drop m (drop n xs)
drop-add zero m xs = rw (add.zero)
drop-add (suc n) m [] = rw (add.suc, drop-nil m)
drop-add (suc n) m (x ∷ xs) = rw (add.suc) (drop-add n m xs)

drop-append : {A : Type 0} (xs ys : List A) → drop (length xs) (xs ++ ys) ≡ ys
drop-append [] ys = refl
drop-append (x ∷ xs) ys = drop-append xs ys

take-append : {A : Type 0} (xs ys : List A) → take (length xs) (xs ++ ys) ≡ xs
take-append [] ys = refl
take-append (x ∷ xs) ys = ap (λ t. x ∷ t) (take-append xs ys)

-- The text at the position is behind it when the stream advances.
pub advanced-Ahead :
    (f : FileStream) (text rest : Bytes)
    → Ahead f (text ++ rest)
    → Ahead (advanced (length text) f) rest
advanced-Ahead f text rest ahead = record {
  good = refl;
  left =
      drop-add f.position (length text) f.content
      ∙ ap (drop (length text)) ahead.left
      ∙ drop-append text rest;
}

below_256 : (n m : ℕ) → n < m * 256 → n / 256 < m
below_256 n m h = omega (arith, h)

pow_suc : (size : ℕ) → 256 ^ suc size ≡ 256 ^ size * 256
pow_suc size = omega (arith, pow-suc 256 size)

not_lt_self : (n : ℕ) → ltb n n ≡ false
not_lt_self n = ground arith

pub read_bytes-Ahead :
    (f : FileStream) (text rest : Bytes)
    → Ahead f (text ++ rest)
    → read_bytes (length text) f ≡ (text, advanced (length text) f)
unfolding read_bytes
read_bytes-Ahead f text rest ahead =
    rw (ahead.good, ahead.left, take-append text rest, not_lt_self (length text))

pub length-encode_number : (size n : ℕ) → length (encode_number size n) ≡ size
unfolding encode_number
length-encode_number zero n = refl
length-encode_number (suc size) n = omega (arith, length-encode_number size (n / 256))

pub overwritten-encode_number :
    (size n old : ℕ)
    → n < 256 ^ size
    → old < 256 ^ size
    → overwritten old (encode_number size n) ≡ n
unfolding overwritten encode_number
overwritten-encode_number zero n old small small' = omega (arith, small, small')
overwritten-encode_number (suc size) n old small small' =
    let n' : n / 256 < 256 ^ size =
      below_256 n (256 ^ size) (subst (λ (t : ℕ). n < t) (pow_suc size) small) in
    let old' : old / 256 < 256 ^ size =
      below_256 old (256 ^ size) (subst (λ (t : ℕ). old < t) (pow_suc size) small') in
    rw (overwritten-encode_number size (n / 256) (old / 256) n' old') (omega arith)

not_longer : (n : ℕ) → n ≤ 1000000 → ltb 1000000 n ≡ false
not_longer n h = ground (arith, h)

below : (n : ℕ) → n < 2 ^ 63 → ltb n (2 ^ 63) ≡ true
below n h = ground (arith, h)

-- A variable of `size` bytes takes the number that stands at the position.
pub read_number-Ahead :
    (size n old : ℕ) (f : FileStream) (rest : Bytes)
    → n < 256 ^ size
    → old < 256 ^ size
    → Ahead f (encode_number size n ++ rest)
    → read_number size old f ≡ (n, advanced size f)
unfolding read_number
read_number-Ahead size n old f rest small small' ahead =
    let reads = read_bytes-Ahead f (encode_number size n) rest ahead in
    let at_size =
      subst (λ (t : ℕ). read_bytes t f ≡ (encode_number size n, advanced t f))
        (length-encode_number size n) reads in
    rw (at_size, overwritten-encode_number size n old small small') refl

pub advanced_number-Ahead :
    (size n : ℕ) (f : FileStream) (rest : Bytes)
    → Ahead f (encode_number size n ++ rest)
    → Ahead (advanced size f) rest
advanced_number-Ahead size n f rest ahead =
    subst (λ (t : ℕ). Ahead (advanced t f) rest) (length-encode_number size n)
      (advanced-Ahead f (encode_number size n) rest ahead)

pub advanced-add : (n m : ℕ) (f : FileStream) → advanced m (advanced n f) ≡ advanced (n + m) f
advanced-add n m f = let e : f.position + n + m ≡ f.position + (n + m) = omega arith in rw e

padded-all : (text : Bytes) → padded (length text) text ≡ text
padded-all text =
    let none_left : length text - length text ≡ 0 = omega arith in rw none_left (append-nil text)

-- A string of at most 1000000 bytes is read back.
pub read_string-Ahead :
    (text rest : Bytes) (f : FileStream)
    → length text ≤ 1000000
    → Ahead f (encode_string text ++ rest)
    → read_string f ≡ (text, advanced (8 + length text) f)
unfolding read_string encode_string
read_string-Ahead text rest f short ahead =
    let ahead' = subst (Ahead f) (append_assoc (encode_number 8 (length text)) text rest) ahead in
    let behind = advanced_number-Ahead 8 (length text) f (text ++ rest) ahead' in
    rw (
      read_number-Ahead 8 (length text) 0 f (text ++ rest) (omega (arith, short)) (omega arith)
          ahead',
      not_longer (length text) short,
      read_bytes-Ahead (advanced 8 f) text rest behind,
      padded-all text,
      advanced-add 8 (length text) f,
    )

pub seek_cur-advanced :
    (n : ℕ) (f : FileStream)
    → f.failed ≡ false
    → f.position + n < 2 ^ 63
    → seek_cur n f ≡ advanced n f
unfolding seek_cur
seek_cur-advanced n f good small =
    rw (good, below n (omega (arith, small)), below (f.position + n) small)

pub advanced-zero : (f : FileStream) → f.failed ≡ false → advanced 0 f ≡ f
advanced-zero f good =
    ap (λ (n : ℕ). record f { position = n; failed = false }) (add-zero f.position)
    ∙ ap (λ (b : Bool). record f { failed = b }) (sym good)

pub length-encode_string : (content : Bytes) → length (encode_string content) ≡ 8 + length content
unfolding encode_string
length-encode_string content = omega (
  arith,
  length-append (encode_number 8 (length content)) content,
  length-encode_number 8 (length content),
)

pub Ahead-assoc :
    (f : FileStream) (a b rest : Bytes) → Ahead f (a ++ b ++ rest) → Ahead f (a ++ (b ++ rest))
Ahead-assoc f a b rest = subst (Ahead f) (append_assoc a b rest)
