-- ===== src/Gguf/Tensor/Laws.antt =====
-- The encoding of a tensor's entry, and that the inspection agrees with the Q4_0 reference.
use mathlib.Core.List.{append_assoc}
use native.Mathlib.Nat.{mod-eq_of_lt, mul_assoc}
use xdna_cpp.Base.{
  ℕ, ◌+◌, ◌*◌, ◌/◌, ◌%◌, ◌^◌, ◌≡◌, ◌<◌, ◌≤◌, ◌↔◌, sym, subst, ap, ◌∙◌, true, false, Bytes, List, [],
  ◌∷◌, ◌++◌, length, arith, length-append, ==_iff,
}
use xdna_cpp.Base.Outcome.{done}
use xdna_cpp.Gguf.{to_type, q4_0}
use xdna_cpp.Gguf.Stream.{FileStream}
use xdna_cpp.Gguf.Stream.Laws.{
  Ahead, advanced, encode_number, encode_string, read_number-Ahead, read_string-Ahead,
  advanced_number-Ahead, advanced-Ahead, advanced-add, advanced-zero, length-encode_number,
  length-encode_string, Ahead-assoc,
}
use xdna_cpp.Gguf.Tensor.{
  TensorInfo, read_dims, elements_from, tensor_bytes, is_capable, tensor_info, read_tensor,
}
use xdna_cpp.Q4.Shape.{validate_matrix}
use xdna_cpp.Q4.Shape.Laws.{validate_matrix_iff}

-- What a file says of a tensor.
pub record Entry : Type 0 where
  pub name : Bytes
  pub dims : List ℕ
  pub raw : ℕ
  pub offset : ℕ

unfoldable pub encode_dims : List ℕ → Bytes
encode_dims [] = []
encode_dims (dim ∷ dims) = encode_number 8 dim ++ encode_dims dims

unfoldable pub encode_entry : Entry → Bytes
encode_entry entry =
    encode_string entry.name
    ++ (encode_number 4 (length entry.dims)
        ++ (encode_dims entry.dims ++ (encode_number 4 entry.raw ++ encode_number 8 entry.offset)))

abbrev pub AreDims : List ℕ → Type 0
AreDims [] = Unit
AreDims (dim ∷ dims) = (dim < 2 ^ 64) × AreDims dims

-- The numbers fit into their fields, and the name is one that `read_string` reads.
pub record IsEntry (entry : Entry) : Type 0 where
  pub name_short : length entry.name ≤ 1000000
  pub few_dims : length entry.dims < 2 ^ 32
  pub dim_words : AreDims entry.dims
  pub raw_word : entry.raw < 2 ^ 32
  pub offset_word : entry.offset < 2 ^ 64

abbrev pub info_of : Entry → TensorInfo
info_of entry =
    tensor_info entry.name (length entry.dims) entry.dims (to_type entry.raw) entry.offset

read_dims-Ahead :
    (dims : List ℕ) (f : FileStream) (rest : Bytes)
    → AreDims dims
    → Ahead f (encode_dims dims ++ rest)
    → (read_dims (length dims) f ≡ (dims, advanced (length (encode_dims dims)) f))
unfolding read_dims encode_dims
read_dims-Ahead [] f rest words ahead = ap (λ g. ([], g)) (sym (advanced-zero f ahead.good))
read_dims-Ahead (dim ∷ dims) f rest (word, words) ahead =
    let ahead' =
      subst (Ahead f) (append_assoc (encode_number 8 dim) (encode_dims dims) rest) ahead in
    let behind = advanced_number-Ahead 8 dim f (encode_dims dims ++ rest) ahead' in
    let total : length (encode_number 8 dim ++ encode_dims dims) ≡ 8 + length (encode_dims dims) =
      omega (
        arith,
        length-append (encode_number 8 dim) (encode_dims dims),
        length-encode_number 8 dim,
      ) in
    rw (
      read_number-Ahead 8 dim 0 f (encode_dims dims ++ rest) (omega (arith, word)) (omega arith)
          ahead',
      read_dims-Ahead dims (advanced 8 f) rest words behind,
      total,
      advanced-add 8 (length (encode_dims dims)) f,
    )

length-encode_entry :
    (entry : Entry)
    → 8 + length entry.name + 4 + length (encode_dims entry.dims) + 4 + 8
      ≡ length (encode_entry entry)
unfolding encode_entry
length-encode_entry entry =
    let last = encode_number 4 entry.raw ++ encode_number 8 entry.offset in
    let dims = encode_dims entry.dims ++ last in
    omega (
      arith,
      length-append (encode_string entry.name) (encode_number 4 (length entry.dims) ++ dims),
      length-encode_string entry.name,
      length-append (encode_number 4 (length entry.dims)) dims,
      length-encode_number 4 (length entry.dims),
      length-append (encode_dims entry.dims) last,
      length-append (encode_number 4 entry.raw) (encode_number 8 entry.offset),
      length-encode_number 4 entry.raw,
      length-encode_number 8 entry.offset,
    )

reads_entry :
    (entry : Entry) (f : FileStream) (rest : Bytes)
    → IsEntry entry
    → Ahead f (encode_entry entry ++ rest)
    → read_tensor f ≡ (info_of entry, advanced (length (encode_entry entry)) f)
unfolding read_tensor encode_entry
reads_entry entry f rest valid ahead =
    let tail₃ = encode_number 8 entry.offset in
    let tail₂ = encode_number 4 entry.raw ++ tail₃ in
    let tail₁ = encode_dims entry.dims ++ tail₂ in
    let tail₀ = encode_number 4 (length entry.dims) ++ tail₁ in
    let f₁ = advanced (8 + length entry.name) f in
    let f₂ = advanced 4 f₁ in
    let f₃ = advanced (length (encode_dims entry.dims)) f₂ in
    let f₄ = advanced 4 f₃ in
    let a₀ = Ahead-assoc f (encode_string entry.name) tail₀ rest ahead in
    let a₁ = Ahead-assoc f₁ (encode_number 4 (length entry.dims)) tail₁ rest (
      subst (λ (t : ℕ). Ahead (advanced t f) (tail₀ ++ rest)) (length-encode_string entry.name)
        (advanced-Ahead f (encode_string entry.name) (tail₀ ++ rest) a₀)) in
    let a₂ =
      Ahead-assoc f₂ (encode_dims entry.dims) tail₂ rest
        (advanced_number-Ahead 4 (length entry.dims) f₁ (tail₁ ++ rest) a₁) in
    let a₃ =
      Ahead-assoc f₃ (encode_number 4 entry.raw) tail₃ rest
        (advanced-Ahead f₂ (encode_dims entry.dims) (tail₂ ++ rest) a₂) in
    let a₄ = advanced_number-Ahead 4 entry.raw f₃ (tail₃ ++ rest) a₃ in
    rw
      (
        read_string-Ahead entry.name (tail₀ ++ rest) f valid.name_short a₀,
        read_number-Ahead 4 (length entry.dims) 0 f₁ (tail₁ ++ rest) (omega (arith, valid.few_dims))
            (omega arith) a₁,
        read_dims-Ahead entry.dims f₂ (tail₂ ++ rest) valid.dim_words a₂,
        read_number-Ahead 4 entry.raw 0 f₃ (tail₃ ++ rest) (omega (arith, valid.raw_word))
            (omega arith) a₃,
        read_number-Ahead 8 entry.offset 0 f₄ rest (omega (arith, valid.offset_word)) (omega arith)
            a₄,
        sym (length-encode_entry entry),
      )
      (ap (λ (t : ℕ). (info_of entry, record f { position = t; failed = false })) (omega arith))

-- Where the entry of a tensor stands at the position of a good stream, `read_tensor` reads the tensor,
-- and the stream stands behind the entry.
pub read_tensor-encode_entry :
    (entry : Entry) (f : FileStream) (rest : Bytes)
    → IsEntry entry
    → Ahead f (encode_entry entry ++ rest)
    → (read_tensor f ≡ (info_of entry, advanced (length (encode_entry entry)) f))
      × Ahead (advanced (length (encode_entry entry)) f) rest
read_tensor-encode_entry entry f rest valid ahead =
    (reads_entry entry f rest valid ahead, advanced-Ahead f (encode_entry entry) rest ahead)

times_32 : (q rows : ℕ) → 32 * q * rows / 32 * 18 ≡ rows * (q * 18)
times_32 q rows =
    let product : 32 * q * rows ≡ 32 * (q * rows) = mul_assoc 32 q rows in
    let parts : rows * (q * 18) ≡ q * rows * 18 = grind arith in omega (arith, product, parts)

whole_rows : (k rows : ℕ) → k % 32 ≡ 0 → k * rows / 32 * 18 ≡ rows * (k / 32 * 18)
whole_rows k rows whole =
    let e : k ≡ 32 * (k / 32) = omega (arith, whole) in
    subst (λ (t : ℕ). t * rows / 32 * 18 ≡ rows * (k / 32 * 18)) (sym e) (times_32 (k / 32) rows)

q4_0_bytes :
    (k rows : ℕ)
    → k < 2 ^ 64
    → k * rows < 2 ^ 64
    → tensor_bytes q4_0 (k ∷ rows ∷ []) ≡ k * rows / 32 * 18
unfolding elements_from
q4_0_bytes k rows word product =
    let once : 1 * k % 2 ^ 64 ≡ k = omega (arith, word) in
    rw (once, mod-eq_of_lt product) (omega (arith, product))

-- For a Q4_0 tensor of two dimensions below 2 ^ 64 whose product is also below 2 ^ 64: the
-- inspection counts it as offloadable exactly when `validate_matrix` accepts a matrix of these
-- dimensions with the size that the inspection computes.
pub is_capable-validate_matrix :
    (k rows : ℕ)
    → k < 2 ^ 64
    → rows < 2 ^ 64
    → k * rows < 2 ^ 64
    → (is_capable q4_0 2 (k ∷ rows ∷ []) ≡ true)
      ↔ (validate_matrix rows k (tensor_bytes q4_0 (k ∷ rows ∷ [])) ≡ done tt)
unfolding elements_from
is_capable-validate_matrix k rows hk hrows hprod =
    let accepts = validate_matrix_iff rows k (tensor_bytes q4_0 (k ∷ rows ∷ [])) hrows hk in
    (
      λ capable.
          let whole = (==_iff (k % 32) 0).0 capable in
          let size = q4_0_bytes k rows hk hprod in
          accepts.1 (whole, size ∙ whole_rows k rows whole, omega (arith, size, hprod)),
      λ valid. (==_iff (k % 32) 0).1 (accepts.0 valid).0,
    )
