-- ===== src/Base/Text.antt =====
-- The byte strings of `std::string`, and the outcome of code that returns.
use Prim.Native.Char.{code}
use Prim.Native.String as Str
use xdna_cpp.Base.Common.{
  arith, Bool, true, false, ◌&&◌, Bytes, [], ◌∷◌, ◌==◌, ◌≡◌, refl, if◌then◌else◌,
}
use xdna_cpp.Base.Outcome.{Outcome, done, thrown, fault, ◌>>=◌}

-- A literal of ASCII characters.
abbrev pub bytes : Str.String → Bytes
bytes Str.[] = []
bytes (Str.◌∷◌ c s) = code c ∷ bytes s

-- `==` of two strings
infix 50 ◌=ˢ◌
abbrev pub ◌=ˢ◌ : Bytes → Bytes → Bool
[] =ˢ [] = true
[] =ˢ (b ∷ t) = false
(a ∷ s) =ˢ [] = false
(a ∷ s) =ˢ (b ∷ t) = a == b && (s =ˢ t)

pub =ˢ_sound : (s t : Bytes) → (s =ˢ t) ≡ true → s ≡ t
=ˢ_sound [] [] h = refl
=ˢ_sound [] (b ∷ t) h = ground (arith, h)
=ˢ_sound (a ∷ s) [] h = ground (arith, h)
=ˢ_sound (a ∷ s) (b ∷ t) h = ground (arith, =ˢ_sound s t)

pub =ˢ_refl : (s : Bytes) → (s =ˢ s) ≡ true
=ˢ_refl [] = refl
=ˢ_refl (a ∷ s) = ground (arith, =ˢ_refl s)

abbrev pub is_empty : Bytes → Bool
is_empty [] = true
is_empty (a ∷ s) = false

-- The code returns, and what it returns has the property.
abbrev pub Returns {ℓ} : {E : Type 0} {A : Type ℓ} → (A → Type 0) → Outcome E A → Type 0
Returns P (done a) = P a
Returns P (thrown e) = ⊥
Returns P fault = ⊥

pub Returns-bind {ℓ ℓ'} :
    {E : Type 0} {A : Type ℓ} {B : Type ℓ'} (Q : A → Type 0) (P : B → Type 0) (m : Outcome E A)
    (f : A → Outcome E B)
    → Returns Q m
    → ((a : A) → Q a → Returns P (f a))
    → Returns P (m >>= f)
Returns-bind Q P (done a) f q next = next a q
Returns-bind Q P (thrown e) f q next = absurd q
Returns-bind Q P fault f q next = absurd q

pub Returns-if {ℓ} :
    {E : Type 0} {A : Type ℓ} (P : A → Type 0) (b : Bool) (m n : Outcome E A)
    → (b ≡ true → Returns P m)
    → (b ≡ false → Returns P n)
    → Returns P (if b then m else n)
Returns-if P true m n first second = first refl
Returns-if P false m n first second = second refl

pub Returns-elim {ℓ} :
    {E : Type 0} {A : Type ℓ} (P : A → Type 0) (b : Bool) (m n : Outcome E A)
    → (b ≡ true → Returns P m)
    → (b ≡ false → Returns P n)
    → Returns P (elim b [ true ↦ m | false ↦ n ])
Returns-elim P true m n first second = first refl
Returns-elim P false m n first second = second refl

pub Returns-done {ℓ} :
    {E : Type 0} {A : Type ℓ} (P : A → Type 0) (m : Outcome E A)
    → Returns P m
    → (a : A) × (m ≡ done a) × P a
Returns-done P (done a) h = (a, refl, h)
Returns-done P (thrown e) h = absurd h
Returns-done P fault h = absurd h
