-- ===== src/Gate1/Json/Quoted.antt =====
-- `json_string` reads back what a JSON writer quotes.
use xdna_cpp.Base.{
  ℕ, ◌∙◌, Option, none, ◌≡◌, refl, ap, sym, Bytes, [], ◌∷◌, ◌++◌, some, ◌==◌, if◌then◌else◌, false,
  arith,
}
use mathlib.Core.List.{append_assoc, append-nil}
use xdna_cpp.Gate1.Json.{unescaped, string_loop, after_prefix, json_string, json_value_start}

-- The escapes of JSON that stand for one character: the letter behind the backslash.
abbrev pub letter_for : ℕ → Option ℕ
letter_for c =
    if c == b'"'
    then some b'"'
    else if c == b'\\'
    then some b'\\'
    else if c == 0x08
    then some b'b'
    else if c == 0x0c
    then some b'f'
    else if c == 0x0a
    then some b'n'
    else if c == 0x0d
    then some b'r'
    else if c == 0x09
    then some b't'
    else none

abbrev written : ℕ → Option ℕ → Bytes → Bytes
written c none text = c ∷ text
written c (some letter) text = b'\\' ∷ letter ∷ text

-- A text with these characters escaped, and any other as it is.
abbrev pub escape : Bytes → Bytes
escape [] = []
escape (c ∷ text) = written c (letter_for c) (escape text)

letter_for-some : (c letter : ℕ) → letter_for c ≡ some letter → unescaped letter ≡ c
letter_for-some c letter h = ground (arith, h)

letter_for-none : (c : ℕ) → letter_for c ≡ none → ((c == b'"') ≡ false) × ((c == b'\\') ≡ false)
letter_for-none c h = (ground (arith, h), ground (arith, h))

-- The loop on one character as it is written.
string_loop-written :
    (c : ℕ) (letter : Option ℕ) (value rest : Bytes)
    → letter_for c ≡ letter
    → string_loop unescaped false value (written c letter rest)
      ≡ string_loop unescaped false (value ++ c ∷ []) rest
unfolding string_loop
string_loop-written c none value rest h =
    let (no_quote, no_backslash) = letter_for-none c h in ground (arith, no_quote, no_backslash)
string_loop-written c (some letter) value rest h = rw (letter_for-some c letter h)

written-append :
    (c : ℕ) (letter : Option ℕ) (text rest : Bytes)
    → written c letter text ++ rest ≡ written c letter (text ++ rest)
written-append c none text rest = refl
written-append c (some letter) text rest = refl

-- The loop on an escaped text and its closing quote yields the text.
pub string_loop-escape :
    (value text rest : Bytes)
    → string_loop unescaped false value (escape text ++ b'"' ∷ rest) ≡ some (value ++ text)
unfolding string_loop
string_loop-escape value [] rest = sym (ap some (append-nil value))
string_loop-escape value (c ∷ text) rest =
    ap (string_loop unescaped false value)
      (written-append c (letter_for c) (escape text) (b'"' ∷ rest))
    ∙ string_loop-written c (letter_for c) value (escape text ++ b'"' ∷ rest) refl
    ∙ string_loop-escape (value ++ c ∷ []) text rest
    ∙ ap some (append_assoc value (c ∷ []) text)

pub after_prefix-append : (needle rest : Bytes) → after_prefix needle (needle ++ rest) ≡ some rest
after_prefix-append [] rest = refl
after_prefix-append (n ∷ needle) rest = ground (arith, after_prefix-append needle rest)

-- `"text"` with the escapes.
abbrev pub quote : Bytes → Bytes
quote text = b'"' ∷ escape text ++ b'"' ∷ []

-- In an object whose first member has the key and a text in which quotes, backslashes and the
-- characters backspace, form feed, newline, carriage return and tab are written as their escapes of
-- two characters, and any other as it is, `json_string` returns that text, whatever follows.
pub json_string-quote :
    (key text rest : Bytes)
    → json_string (b'{' ∷ (b'"' ∷ key ++ b'"' ∷ []) ++ (b':' ∷ quote text ++ rest)) key ≡ some text
unfolding json_string json_value_start
json_string-quote key text rest =
    rw
      (
        after_prefix-append (key ++ b'"' ∷ []) (b':' ∷ quote text ++ rest),
        append_assoc (escape text) (b'"' ∷ []) rest,
      )
      (string_loop-escape [] text rest)
