-- ===== src/Gguf/Totals/Laws.antt =====
-- The totals are sums over the tensors, modulo the width of their variables.
use xdna_cpp.Base.{
  ℕ, ◌+◌, ◌≡◌, refl, sym, subst, ap, ◌∙◌, Bool, true, false, not, ◌&&◌, ◌==◌, Bytes, List, [], ◌∷◌,
  inl, inr, if◌then◌else◌, arith, Bool-cases,
}
use xdna_cpp.Base.Text.{◌=ˢ◌, =ˢ_sound, =ˢ_refl}
use xdna_cpp.Base.Word.{u32, u64}
use xdna_cpp.Gguf.{ggml_type_name}
use xdna_cpp.Gguf.Tensor.{TensorInfo, is_q4_0}
use xdna_cpp.Gguf.Totals.{Counts, add_to, Totals, shape_text, no_tensors, account, account_all}

abbrev pub sum_where : (TensorInfo → Bool) → (TensorInfo → ℕ) → List TensorInfo → ℕ
sum_where test size [] = 0
sum_where test size (tensor ∷ tensors) =
    (if test tensor then size tensor else 0) + sum_where test size tensors

abbrev pub one : TensorInfo → ℕ
one tensor = 1

abbrev pub bytes_of : TensorInfo → ℕ
bytes_of tensor = tensor.byte_size

abbrev pub any : TensorInfo → Bool
any tensor = true

abbrev pub capable : TensorInfo → Bool
capable tensor = tensor.xdna_capable

abbrev pub named : Bytes → TensorInfo → Bool
named name tensor = ggml_type_name tensor.type =ˢ name

-- Two dimensions with the text `first x second`.
abbrev pub shaped : Bytes → TensorInfo → Bool
shaped text tensor = tensor.n_dims == 2 && (shape_text tensor.dims =ˢ text)

-- The number of a key, 0 where it is missing.
abbrev pub counted : Bytes → Counts → ℕ
counted key [] = 0
counted key (entry ∷ counts) = if entry.0 =ˢ key then entry.1 else counted key counts

module _ (wrap : ℕ → ℕ) (key name : Bytes) (n : ℕ) where
  abbrev added : Bool → ℕ → ℕ
  added same old = if same then wrap (old + n) else old

  counted-add_to :
      (counts : Counts)
      → counted name (add_to wrap key n counts) ≡ added (key =ˢ name) (counted name counts)
  unfolding add_to
  counted-add_to [] = let e : 0 + n ≡ n = omega arith in rw e
  counted-add_to (entry ∷ counts) = elim (Bool-cases (entry.0 =ˢ key)) [
    | inl same ↦
        let found : (entry.0 =ˢ name) ≡ (key =ˢ name) =
          ap (λ t. t =ˢ name) (=ˢ_sound entry.0 key same) in
        rw (add_to, same, found) (ground arith)
    | inr other ↦ elim (Bool-cases (entry.0 =ˢ name)) [
      | inr missing ↦ rw (add_to, other, missing, counted-add_to counts)
      | inl found ↦ elim (Bool-cases (key =ˢ name)) [
        | inr apart ↦ rw (add_to, other, found, apart)
        | inl same ↦
            let e = =ˢ_sound entry.0 name found ∙ sym (=ˢ_sound key name same) in
            ground (arith, other, subst (λ t. (entry.0 =ˢ t) ≡ true) e (=ˢ_refl entry.0))
      ]
    ]
  ]

module _ (wrap : ℕ → ℕ) (wraps : (a b : ℕ) → wrap (wrap a + b) ≡ wrap (a + b)) where
  wrap-wrap : (a : ℕ) → wrap (wrap a) ≡ wrap a
  wrap-wrap a = ap wrap (omega arith) ∙ wraps a 0 ∙ ap wrap (omega arith)

  sum_step :
      (counts : Bool) (old new size rest final : ℕ)
      → new ≡ (if counts then wrap (old + size) else old)
      → wrap old ≡ old
      → (wrap new ≡ new → final ≡ wrap (new + rest))
      → final ≡ wrap (old + ((if counts then size else 0) + rest))
  sum_step true old new size rest final e small next =
      next (ap wrap e ∙ wrap-wrap (old + size) ∙ sym e)
      ∙ ap (λ (t : ℕ). wrap (t + rest)) e
      ∙ wraps (old + size) rest
      ∙ ap wrap (omega arith)
  sum_step false old new size rest final e small next =
      next (ap wrap e ∙ small ∙ sym e) ∙ ap wrap (omega (arith, e))

  -- A number of the totals to which each tensor with a property adds.
  sum-account_all :
      (get : Totals → ℕ) (test : TensorInfo → Bool) (size : TensorInfo → ℕ)
      → ((totals : Totals) (tensor : TensorInfo)
          → get (account totals tensor)
            ≡ (if test tensor then wrap (get totals + size tensor) else get totals))
      → (tensors : List TensorInfo) (totals : Totals) → wrap (get totals) ≡ get totals
      → get (account_all totals tensors) ≡ wrap (get totals + sum_where test size tensors)
  sum-account_all get test size step [] totals small = sym small ∙ ap wrap (omega arith)
  sum-account_all get test size step (tensor ∷ tensors) totals small =
      sum_step (test tensor) (get totals) (get (account totals tensor)) (size tensor)
        (sum_where test size tensors) _ (step totals tensor) small
        (sum-account_all get test size step tensors (account totals tensor))

  -- From no tensors.
  sum-no_tensors :
      (get : Totals → ℕ) (test : TensorInfo → Bool) (size : TensorInfo → ℕ)
      → ((totals : Totals) (tensor : TensorInfo)
          → get (account totals tensor)
            ≡ (if test tensor then wrap (get totals + size tensor) else get totals))
      → get no_tensors ≡ 0
      → wrap 0 ≡ 0
      → (tensors : List TensorInfo)
      → get (account_all no_tensors tensors) ≡ wrap (sum_where test size tensors)
  sum-no_tensors get test size step zero_first wrap_zero tensors =
      sum-account_all get test size step tensors no_tensors
        (ap wrap zero_first ∙ wrap_zero ∙ sym zero_first)
      ∙ ap wrap (omega (arith, zero_first))

-- What the totals of a list of tensors are.
pub record AreTotals (totals : Totals) (tensors : List TensorInfo) : Type 0 where
  pub total : totals.total_model_bytes ≡ u64 (sum_where any bytes_of tensors)
  pub on_npu : totals.xdna_capable_bytes ≡ u64 (sum_where capable bytes_of tensors)
  pub on_cpu : totals.cpu_only_bytes ≡ u64 (sum_where (λ t. not (capable t)) bytes_of tensors)
  pub parts : u64 (totals.xdna_capable_bytes + totals.cpu_only_bytes) ≡ totals.total_model_bytes
  pub npu_count : totals.xdna_tensor_count ≡ u32 (sum_where capable one tensors)
  pub q4_0_count : totals.q4_0_tensor_count ≡ u32 (sum_where (λ t. is_q4_0 t.type) one tensors)
  pub count_by_type :
      (name : Bytes) → counted name totals.type_counts ≡ u32 (sum_where (named name) one tensors)
  pub bytes_by_type :
      (name : Bytes)
      → counted name totals.type_bytes ≡ u64 (sum_where (named name) bytes_of tensors)
  pub count_by_shape :
      (text : Bytes)
      → counted text totals.shape_histogram ≡ u32 (sum_where (shaped text) one tensors)

counted-with_shape :
    (flat : Bool) (dims : List ℕ) (text : Bytes) (histogram : Counts)
    → counted text (if flat then add_to u32 (shape_text dims) 1 histogram else histogram) ≡ (
        if flat && (shape_text dims =ˢ text)
        then u32 (counted text histogram + 1)
        else counted text histogram)
counted-with_shape true dims text histogram = counted-add_to u32 (shape_text dims) text 1 histogram
counted-with_shape false dims text histogram = refl

u64-add : (a b : ℕ) → u64 (u64 a + b) ≡ u64 (a + b)
u64-add a b = omega arith

u32-add : (a b : ℕ) → u32 (u32 a + b) ≡ u32 (a + b)
u32-add a b = omega arith

unless : (b : Bool) (m n : ℕ) → (if b then n else m) ≡ (if not b then m else n)
unless true m n = refl
unless false m n = refl

sum_parts :
    (tensors : List TensorInfo)
    → sum_where capable bytes_of tensors + sum_where (λ t. not (capable t)) bytes_of tensors
      ≡ sum_where any bytes_of tensors
sum_parts [] = omega arith
sum_parts (tensor ∷ tensors) = ground (arith, sum_parts tensors)

-- For every list of tensors: the bytes of the model are the sum of the sizes, those for the NPU and
-- for the CPU the sums over the capable and over the other tensors, and these two make up all
-- bytes; the counts are the numbers of capable tensors, of Q4_0 tensors, of tensors with each type
-- name and of two-dimensional tensors with each shape, and the bytes of a type name the sum over
-- its tensors. All this is modulo 2 ^ 64 for bytes and 2 ^ 32 for counts.
pub account_all-AreTotals :
    (tensors : List TensorInfo) → AreTotals (account_all no_tensors tensors) tensors
account_all-AreTotals tensors =
    let total =
      sum-no_tensors u64 u64-add (λ s. s.total_model_bytes) any bytes_of (λ s t. refl) refl refl
        tensors in
    let on_npu =
      sum-no_tensors u64 u64-add (λ s. s.xdna_capable_bytes) capable bytes_of (λ s t. refl) refl
        refl tensors in
    let on_cpu =
      sum-no_tensors u64 u64-add (λ s. s.cpu_only_bytes) (λ t. not (capable t)) bytes_of
        (λ s t. unless t.xdna_capable _ _) refl refl tensors in
    record {
      total = total;
      on_npu = on_npu;
      on_cpu = on_cpu;
      parts = omega (arith, total, on_npu, on_cpu, sum_parts tensors);
      npu_count =
          sum-no_tensors u32 u32-add (λ s. s.xdna_tensor_count) capable one (λ s t. refl) refl refl
            tensors;
      q4_0_count =
          sum-no_tensors u32 u32-add (λ s. s.q4_0_tensor_count) (λ t. is_q4_0 t.type) one
            (λ s t. refl) refl refl tensors;
      count_by_type = λ name.
          sum-no_tensors u32 u32-add (λ s. counted name s.type_counts) (named name) one
            (λ s t. counted-add_to u32 (ggml_type_name t.type) name 1 s.type_counts) refl refl
            tensors;
      bytes_by_type = λ name.
          sum-no_tensors u64 u64-add (λ s. counted name s.type_bytes) (named name) bytes_of
            (λ s t. counted-add_to u64 (ggml_type_name t.type) name t.byte_size s.type_bytes) refl
            refl tensors;
      count_by_shape = λ text.
          sum-no_tensors u32 u32-add (λ s. counted text s.shape_histogram) (shaped text) one
            (λ s t. counted-with_shape (t.n_dims == 2) t.dims text s.shape_histogram) refl refl
            tensors;
    }
