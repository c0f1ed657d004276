-- ===== src/Gguf/Inspect/Laws/Keys.antt =====
-- The keys of the metadata in tools/xdna-gguf-info.cpp: no two variables have the same.
use mathlib.Core.List.{reverse-append, append_assoc}
use xdna_cpp.Base.{
  ℕ, ◌≡◌, refl, sym, ap, subst, ◌∙◌, Bool, true, false, ◌||◌, Bytes, [], ◌∷◌, ◌++◌, reverse, take,
  drop, length, Bool-cases, inl, inr, arith,
}
use xdna_cpp.Base.Text.{bytes, ◌=ˢ◌, =ˢ_sound, =ˢ_refl}

-- `arch.name`, or the name of any architecture.
abbrev pub is_key : (arch key name : Bytes) → Bool
is_key arch key name = key =ˢ (arch ++ name) || key =ˢ (bytes "general" ++ name)

abbrev pub is_arch_key : (arch key name : Bytes) → Bool
is_arch_key arch key name = key =ˢ (arch ++ name)

-- The end of a key tells the variables apart.
abbrev ending : Bytes → Bytes
ending key = take 8 (reverse key)

abbrev behind_ending : Bytes → Bytes
behind_ending key = drop 8 (reverse key)

take-front : (front rest : Bytes) → take (length front) (front ++ rest) ≡ front
take-front [] rest = refl
take-front (c ∷ front) rest = ap (λ t. c ∷ t) (take-front front rest)

-- A key that is `arch` and a name of at least eight bytes ends like the name.
ending-append :
    (arch name end behind : Bytes)
    → reverse name ≡ end ++ behind
    → length end ≡ 8
    → ending (arch ++ name) ≡ end
ending-append arch name end behind h eight =
    ap (take 8) (
      reverse-append arch name
      ∙ ap (λ t. t ++ reverse arch) h
      ∙ append_assoc end behind (reverse arch))
    ∙ subst (λ (n : ℕ). take n (end ++ (behind ++ reverse arch)) ≡ end) eight
        (take-front end (behind ++ reverse arch))

others :
    (m n : Bool) (key s t : Bytes)
    → (m ≡ true → ending key ≡ s)
    → (n ≡ true → ending key ≡ t)
    → (s =ˢ t) ≡ false
    → m ≡ true
    → n ≡ false
others m false key s t first second apart h = refl
others m true key s t first second apart h =
    let same = sym (first h) ∙ second refl in
    ground (arith, apart, subst (λ u. (s =ˢ u) ≡ true) same (=ˢ_refl s))

key-ending :
    (arch key name end behind : Bytes)
    → reverse name ≡ end ++ behind
    → length end ≡ 8
    → is_key arch key name ≡ true
    → ending key ≡ end
key-ending arch key name end behind h eight named = elim (Bool-cases (key =ˢ (arch ++ name))) [
  | inl own ↦
      ap ending (=ˢ_sound key (arch ++ name) own) ∙ ending-append arch name end behind h eight
  | inr other ↦
      ap ending (=ˢ_sound key (bytes "general" ++ name) (ground (arith, named, other)))
      ∙ ending-append (bytes "general") name end behind h eight
]

arch_key-ending :
    (arch key name end behind : Bytes)
    → reverse name ≡ end ++ behind
    → length end ≡ 8
    → is_arch_key arch key name ≡ true
    → ending key ≡ end
arch_key-ending arch key name end behind h eight own =
    ap ending (=ˢ_sound key (arch ++ name) own) ∙ ending-append arch name end behind h eight

-- No two of the tests hold.
pub record AreApart (b e f h k : Bool) : Type 0 where
  pub after_b : b ≡ true → (e ≡ false) × (f ≡ false) × (h ≡ false) × (k ≡ false)
  pub after_e : e ≡ true → (f ≡ false) × (h ≡ false) × (k ≡ false)
  pub after_f : f ≡ true → (h ≡ false) × (k ≡ false)
  pub after_h : h ≡ true → k ≡ false

module _ (arch key : Bytes) where
  pub keys-AreApart :
      AreApart
        (is_key arch key (bytes ".block_count"))
        (is_key arch key (bytes ".embedding_length"))
        (is_key arch key (bytes ".feed_forward_length"))
        (is_arch_key arch key (bytes ".attention.head_count"))
        (is_arch_key arch key (bytes ".attention.head_count_kv"))
  keys-AreApart =
      let b =
        key-ending arch key (bytes ".block_count") (ending (bytes ".block_count"))
          (behind_ending (bytes ".block_count")) refl refl in
      let e =
        key-ending arch key (bytes ".embedding_length") (ending (bytes ".embedding_length"))
          (behind_ending (bytes ".embedding_length")) refl refl in
      let f =
        key-ending arch key (bytes ".feed_forward_length") (ending (bytes ".feed_forward_length"))
          (behind_ending (bytes ".feed_forward_length")) refl refl in
      let h =
        arch_key-ending arch key (bytes ".attention.head_count")
          (ending (bytes ".attention.head_count")) (behind_ending (bytes ".attention.head_count"))
          refl refl in
      let k =
        arch_key-ending arch key (bytes ".attention.head_count_kv")
          (ending (bytes ".attention.head_count_kv"))
          (behind_ending (bytes ".attention.head_count_kv")) refl refl in
      record {
        after_b = λ on. (
          others _ _ key _ _ b e refl on,
          others _ _ key _ _ b f refl on,
          others _ _ key _ _ b h refl on,
          others _ _ key _ _ b k refl on,
        );
        after_e = λ on. (
          others _ _ key _ _ e f refl on,
          others _ _ key _ _ e h refl on,
          others _ _ key _ _ e k refl on,
        );
        after_f = λ on. (others _ _ key _ _ f h refl on, others _ _ key _ _ f k refl on);
        after_h = λ on. others _ _ key _ _ h k refl on;
      }
