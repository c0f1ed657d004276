-- ===== src/Gguf/Inspect/Laws/Fields.antt =====
-- Which of the variables of `main` in tools/xdna-gguf-info.cpp a key with its value sets.
use xdna_cpp.Base.{
  ℕ, ◌≡◌, refl, sym, ap, subst, ◌∙◌, Bool, true, false, Bytes, ◌==◌, if◌then◌else◌, arith,
}
use xdna_cpp.Base.Text.{bytes, ◌=ˢ◌}
use xdna_cpp.Gguf.Inspect.{
  ModelInfo, Field, arch_field, block_count_field, embedding_length_field,
  feed_forward_length_field, head_count_field, head_count_kv_field, other_field, field_of, branch,
}
use xdna_cpp.Gguf.Inspect.Laws.{Pair, understood, understood_pair}
use xdna_cpp.Gguf.Inspect.Laws.Keys.{is_key, is_arch_key, AreApart, keys-AreApart}
use xdna_cpp.Gguf.Stream.{overwritten}
use xdna_cpp.Gguf.Value.{string_type, uint32_type}
use xdna_cpp.Gguf.Value.Laws.{GgufValue, number, text, array, type_of}

-- A variable behind a value: a number of type UINT32 under one of the variable's keys is read into it.
abbrev pub stored : (named : Bool) → GgufValue → (old : ℕ) → ℕ
stored false value old = old
stored true (number type content) old = if type == uint32_type then overwritten old content else old
stored true (text content) old = old
stored true (array element values) old = old

abbrev pub arch_stored : (named : Bool) → GgufValue → (old : Bytes) → Bytes
arch_stored false value old = old
arch_stored true (text content) old = content
arch_stored true (number type content) old = old
arch_stored true (array element values) old = old

-- Each variable behind a pair, by the tests on its key.
pub record IsStored (a b e f h k : Bool) (value : GgufValue) (info info' : ModelInfo) : Type 0 where
  pub arch : info'.arch ≡ arch_stored a value info.arch
  pub block_count : info'.block_count ≡ stored b value info.block_count
  pub embedding_length : info'.embedding_length ≡ stored e value info.embedding_length
  pub feed_forward_length : info'.feed_forward_length ≡ stored f value info.feed_forward_length
  pub head_count : info'.head_count ≡ stored h value info.head_count
  pub head_count_kv : info'.head_count_kv ≡ stored k value info.head_count_kv

-- The pair sets each variable that has its key, and no other.
abbrev pub IsUnderstood : ModelInfo → Pair → ModelInfo → Type 0
IsUnderstood info pair info' =
    IsStored (pair.key =ˢ bytes "general.architecture")
      (is_key info.arch pair.key (bytes ".block_count"))
      (is_key info.arch pair.key (bytes ".embedding_length"))
      (is_key info.arch pair.key (bytes ".feed_forward_length"))
      (is_arch_key info.arch pair.key (bytes ".attention.head_count"))
      (is_arch_key info.arch pair.key (bytes ".attention.head_count_kv")) pair.value info info'

-- A branch whose type is another falls through, and one whose type is the value's is taken by its key.
branch-apart :
    (matches : Bool) (type wanted : ℕ) (field other : Field)
    → (type == wanted) ≡ false
    → branch matches type wanted field other ≡ other
unfolding branch
branch-apart false type wanted field other h = refl
branch-apart true type wanted field other h = rw h refl

branch-same :
    (matches : Bool) (type wanted : ℕ) (field other : Field)
    → (type == wanted) ≡ true
    → branch matches type wanted field other ≡ (if matches then field else other)
unfolding branch
branch-same false type wanted field other h = refl
branch-same true type wanted field other h = rw h refl

abbrev number_field : (b e f h k : Bool) → Field
number_field b e f h k =
    if b
    then block_count_field
    else if e
    then embedding_length_field
    else if f
    then feed_forward_length_field
    else if h
    then head_count_field
    else if k
    then head_count_kv_field
    else other_field

arch_kept :
    (a : Bool) (type : ℕ) (content old : Bytes) → arch_stored a (number type content) old ≡ old
arch_kept false type content old = refl
arch_kept true type content old = refl

stored_word :
    (type : ℕ) (content : Bytes) (old : ℕ)
    → (type == uint32_type) ≡ true
    → stored true (number type content) old ≡ overwritten old content
stored_word type content old word = rw (word)

-- A number of type UINT32 under a key.
number-IsStored :
    (a b e f h k : Bool) (type : ℕ) (content : Bytes) (info : ModelInfo)
    → AreApart b e f h k
    → (type == uint32_type) ≡ true
    → IsStored a b e f h k
        (number type content)
        info
        (understood (number_field b e f h k) info (number type content))
number-IsStored a true e f h k type content info apart word =
    let (e_not, f_not, h_not, k_not) = apart.after_b refl in
    rw (e_not, f_not, h_not, k_not)
      (record {
        arch = sym (arch_kept a type content info.arch);
        block_count = sym (stored_word type content info.block_count word);
        embedding_length = refl;
        feed_forward_length = refl;
        head_count = refl;
        head_count_kv = refl;
      })
number-IsStored a false true f h k type content info apart word =
    let (f_not, h_not, k_not) = apart.after_e refl in
    rw (f_not, h_not, k_not)
      (record {
        arch = sym (arch_kept a type content info.arch);
        block_count = refl;
        embedding_length = sym (stored_word type content info.embedding_length word);
        feed_forward_length = refl;
        head_count = refl;
        head_count_kv = refl;
      })
number-IsStored a false false true h k type content info apart word =
    let (h_not, k_not) = apart.after_f refl in
    rw (h_not, k_not)
      (record {
        arch = sym (arch_kept a type content info.arch);
        block_count = refl;
        embedding_length = refl;
        feed_forward_length = sym (stored_word type content info.feed_forward_length word);
        head_count = refl;
        head_count_kv = refl;
      })
number-IsStored a false false false true k type content info apart word =
    rw (apart.after_h refl) (record {
      arch = sym (arch_kept a type content info.arch);
      block_count = refl;
      embedding_length = refl;
      feed_forward_length = refl;
      head_count = sym (stored_word type content info.head_count word);
      head_count_kv = refl;
    })
number-IsStored a false false false false true type content info apart word = (record {
  arch = sym (arch_kept a type content info.arch);
  block_count = refl;
  embedding_length = refl;
  feed_forward_length = refl;
  head_count = refl;
  head_count_kv = sym (stored_word type content info.head_count_kv word);
})
number-IsStored a false false false false false type content info apart word = record {
  arch = sym (arch_kept a type content info.arch);
  block_count = refl;
  embedding_length = refl;
  feed_forward_length = refl;
  head_count = refl;
  head_count_kv = refl;
}

-- A value of another type sets no number.
stored-apart :
    (named : Bool) (value : GgufValue) (old : ℕ)
    → (type_of value == uint32_type) ≡ false
    → stored named value old ≡ old
stored-apart false value old apart = refl
stored-apart true (number type content) old apart = rw (apart)
stored-apart true (text content) old apart = refl
stored-apart true (array element values) old apart = refl

arch-IsStored :
    (a b e f h k : Bool) (value : GgufValue) (info : ModelInfo)
    → (type_of value == uint32_type) ≡ false
    → (info' : ModelInfo) → info'.arch ≡ arch_stored a value info.arch
    → info' ≡ record info { arch = info'.arch }
    → IsStored a b e f h k value info info'
arch-IsStored a b e f h k value info apart info' named same = record {
  arch = named;
  block_count = ap (λ i. i.block_count) same ∙ sym (stored-apart b value info.block_count apart);
  embedding_length =
      ap (λ i. i.embedding_length) same ∙ sym (stored-apart e value info.embedding_length apart);
  feed_forward_length =
      ap (λ i. i.feed_forward_length) same
      ∙ sym (stored-apart f value info.feed_forward_length apart);
  head_count = ap (λ i. i.head_count) same ∙ sym (stored-apart h value info.head_count apart);
  head_count_kv =
      ap (λ i. i.head_count_kv) same ∙ sym (stored-apart k value info.head_count_kv apart);
}

-- The branches on a value of another type.
other-IsStored :
    (a b e f h k : Bool) (value : GgufValue) (info : ModelInfo)
    → (type_of value == uint32_type) ≡ false
    → IsStored a b e f h k value info
        (understood (branch a (type_of value) string_type arch_field other_field) info value)
unfolding branch
other-IsStored false b e f h k value info apart =
    arch-IsStored false b e f h k value info apart info refl refl
other-IsStored true b e f h k (text content) info apart =
    arch-IsStored true b e f h k (text content) info apart (record info { arch = content }) refl
      refl
other-IsStored true b e f h k (array element values) info apart =
    arch-IsStored true b e f h k (array element values) info apart info refl refl
other-IsStored true b e f h k (number type content) info apart =
    elim (type == string_type)
      as (λ m.
        IsStored true b e f h k (number type content) info
          (understood (if m then arch_field else other_field) info (number type content))) [
            | true ↦ arch-IsStored true b e f h k (number type content) info apart info refl refl
            | false ↦ arch-IsStored true b e f h k (number type content) info apart info refl refl
          ]

abbrev numbers : (b e f h k : Bool) (type : ℕ) → Field
numbers b e f h k type = branch b type uint32_type block_count_field (
    branch e type uint32_type embedding_length_field (
      branch f type uint32_type feed_forward_length_field (
        branch h type uint32_type head_count_field
          (branch k type uint32_type head_count_kv_field other_field))))

numbers-apart :
    (b e f h k : Bool) (type : ℕ)
    → (type == uint32_type) ≡ false
    → numbers b e f h k type ≡ other_field
numbers-apart b e f h k type apart =
    branch-apart b type uint32_type _ _ apart
    ∙ branch-apart e type uint32_type _ _ apart
    ∙ branch-apart f type uint32_type _ _ apart
    ∙ branch-apart h type uint32_type _ _ apart
    ∙ branch-apart k type uint32_type _ _ apart

numbers-same :
    (b e f h k : Bool) (type : ℕ)
    → (type == uint32_type) ≡ true
    → numbers b e f h k type ≡ number_field b e f h k
numbers-same b e f h k type same = rw (
  branch-same k type uint32_type head_count_kv_field other_field same,
  branch-same h type uint32_type head_count_field (if k then head_count_kv_field else other_field)
      same,
  branch-same f type uint32_type feed_forward_length_field _ same,
  branch-same e type uint32_type embedding_length_field _ same,
  branch-same b type uint32_type block_count_field _ same,
)

branches-IsStored :
    (a b e f h k : Bool) (value : GgufValue) (info : ModelInfo)
    → AreApart b e f h k
    → (word : Bool) → (type_of value == uint32_type) ≡ word
    → IsStored a b e f h k value info (
        understood
          (branch a (type_of value) string_type arch_field (numbers b e f h k (type_of value)))
          info
          value)
branches-IsStored a b e f h k value info apart false other =
    subst
      (λ rest.
        IsStored a b e f h k value info
          (understood (branch a (type_of value) string_type arch_field rest) info value))
      (sym (numbers-apart b e f h k (type_of value) other))
      (other-IsStored a b e f h k value info other)
branches-IsStored a b e f h k (text content) info apart true word = ground (arith, word)
branches-IsStored a b e f h k (array element values) info apart true word = ground (arith, word)
branches-IsStored a b e f h k (number type content) info apart true word =
    subst
      (λ field.
        IsStored a b e f h k (number type content) info
          (understood field info (number type content)))
      (sym (
        branch-apart a type string_type arch_field _ (ground (arith, word))
        ∙ numbers-same b e f h k type word))
      (number-IsStored a b e f h k type content info apart word)

-- What the metadata loop understands of a pair.
pub understood_pair-IsUnderstood :
    (info : ModelInfo) (pair : Pair) → IsUnderstood info pair (understood_pair info pair)
unfolding field_of
understood_pair-IsUnderstood info pair =
    branches-IsStored (pair.key =ˢ bytes "general.architecture") _ _ _ _ _ pair.value info
      (keys-AreApart info.arch pair.key) _ refl
