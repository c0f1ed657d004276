-- ===== src/Backend/Graph.antt =====
-- What a computed graph leaves in the buffers.
use xdna_cpp.Base.{
  ℕ, ◌+◌, ◌*◌, ◌%◌, ◌^◌, ◌<◌, ◌≡◌, refl, ap, ◌∙◌, ◌⊎◌, inl, inr, true, ◌&&◌, List, [], ◌∷◌, Option,
  some, ◌==◌, ltb, if◌then◌else◌, arith,
}
use xdna_cpp.Base.Float.{Float32}
use xdna_cpp.Base.Memory.{Memory}
use xdna_cpp.Base.Outcome.{done}
use xdna_cpp.Base.Word.{u64}
use xdna_cpp.Engine.Run.{bytes_per_row}
use xdna_cpp.Engine.Run.Laws.{row_dot, written, contains, AllBelow, run_passes}
use xdna_cpp.Npu as Npu
use xdna_cpp.Npu.{Clock, Impl, add_time, count_dispatch}
use xdna_cpp.Backend.{
  SourceTensor, Node, Buffers, Product, Runtime, XdnaBackendContext, product_of, put, run_product,
  compute_product, compute_nodes, ggml_backend_xdna_supports_op, ggml_backend_xdna_compute_graph,
}
use xdna_cpp.Backend.Products.{IsProduct, product_of-IsProduct}

-- The runtime's order has the iterations of the parallel loop, and no other.
pub record IsSchedule (runtime : Runtime) : Type 0 where
  pub below : (n : ℕ) → AllBelow n (runtime.order_for n)
  pub covers : (n p : ℕ) → p * 2 < n → contains p (runtime.order_for n) ≡ true

module _ (F : Float32) where
  -- Entry `i` of buffer `a` behind a product: a dot product in the first rows of its output, and nothing else.
  abbrev pub product_value : Product → Buffers → (a i : ℕ) → ℕ
  product_value product buffers a i =
      if a == product.output && ltb i product.product_rows
      then row_dot F (buffers product.weights_address) (buffers product.activations_address)
          product.product_rows product.product_columns i
      else buffers a i

  -- A node that is a product has its effect and is one dispatch, any other node does nothing.
  abbrev pub NodeEffect : Option Node → Buffers → Buffers → (dispatches : ℕ) → Type 0
  NodeEffect node before after dispatches =
      ((product : Product) × IsProduct node product
        × (dispatches ≡ 1)
        × ((a i : ℕ) → after a i ≡ product_value product before a i))
      ⊎ (((product : Product) → ¬ IsProduct node product)
          × (dispatches ≡ 0)
          × ((a i : ℕ) → after a i ≡ before a i))

  -- The nodes, one after the other.
  abbrev pub Effects : List (Option Node) → Buffers → Buffers → (dispatches : ℕ) → Type 0
  Effects [] before after dispatches = (dispatches ≡ 0) × ((a i : ℕ) → after a i ≡ before a i)
  Effects (node ∷ nodes) before after dispatches =
      (between : Buffers) × (one : ℕ) × (others : ℕ) × (dispatches ≡ one + others)
      × NodeEffect node before between one
      × Effects nodes between after others

  stored :
      (product : Product) (buffers : Buffers) (out : Memory) (a i : ℕ)
      → out i
        ≡ written F
            (buffers product.weights_address)
            (buffers product.activations_address)
            product.product_rows
            product.product_columns
            (buffers product.output)
            i
      → put buffers product.output out a i ≡ product_value product buffers a i
  stored product buffers out a i writes = ground (arith, writes)

  module _ (clock : Clock) (runtime : Runtime) (schedule : IsSchedule runtime) where
    run_product_done :
        (product : Product) (impl : Impl) (buffers : Buffers)
        → (impl' : Impl) × (buffers' : Buffers) × (run_product F clock runtime product impl buffers
            ≡ done (impl', buffers'))
          × (impl'.current_profile.num_dispatches
              ≡ (impl.current_profile.num_dispatches + 1) % 2 ^ 64)
          × ((a i : ℕ) → buffers' a i ≡ product_value product buffers a i)
    unfolding run_product Npu.run
    run_product_done product impl buffers =
        let (out, returns, writes) =
          run_passes F (buffers product.weights_address) (buffers product.activations_address)
            product.product_rows product.product_columns
            (u64 (product.product_rows * bytes_per_row product.product_columns))
            (runtime.order_for product.product_rows) (buffers product.output) (omega arith)
            (schedule.below product.product_rows) (schedule.covers product.product_rows) in
        (
          add_time clock runtime.run_start runtime.run_end (count_dispatch impl),
          put buffers product.output out,
          rw returns refl,
          refl,
          λ a i. stored product buffers out a i (writes i),
        )

    compute_node_done :
        (node : Option Node) (impl : Impl) (buffers : Buffers)
        → impl.current_profile.num_dispatches < 2 ^ 64
        → (impl' : Impl) × (buffers' : Buffers) × (one : ℕ) × (compute_product F clock runtime
              (product_of node)
              impl
              buffers
            ≡ done (impl', buffers'))
          × (impl'.current_profile.num_dispatches
              ≡ (impl.current_profile.num_dispatches + one) % 2 ^ 64)
          × NodeEffect node buffers buffers' one
    compute_node_done node impl buffers h = elim (product_of-IsProduct node) [
      | inl (product, found, is) ↦
          let (impl', buffers', returns, count, effect) = run_product_done product impl buffers in
          (
            impl',
            buffers',
            1,
            ap (λ p. compute_product F clock runtime p impl buffers) found ∙ returns,
            count,
            inl (product, is, refl, effect),
          )
      | inr (missing, never) ↦ (
        impl,
        buffers,
        0,
        ap (λ p. compute_product F clock runtime p impl buffers) missing,
        omega (arith, h),
        inr (never, refl, λ a i. refl),
      )
    ]

    compute_nodes_done :
        (nodes : List (Option Node)) (impl : Impl) (buffers : Buffers)
        → impl.current_profile.num_dispatches < 2 ^ 64
        → (impl' : Impl) × (buffers' : Buffers) × (products : ℕ) × (compute_nodes F clock runtime
              nodes impl buffers
            ≡ done (impl', buffers'))
          × (impl'.current_profile.num_dispatches
              ≡ (impl.current_profile.num_dispatches + products) % 2 ^ 64)
          × Effects nodes buffers buffers' products
    unfolding compute_nodes
    compute_nodes_done [] impl buffers h =
        (impl, buffers, 0, refl, omega (arith, h), (refl, λ a i. refl))
    compute_nodes_done (node ∷ nodes) impl buffers h =
        let (impl₁, buffers₁, one, returns₁, count₁, effect₁) =
          compute_node_done node impl buffers h in
        let (impl₂, buffers₂, others, returns₂, count₂, effects₂) =
          compute_nodes_done nodes impl₁ buffers₁ (omega (arith, count₁)) in
        (
          impl₂,
          buffers₂,
          one + others,
          rw returns₁ returns₂,
          omega (arith, count₁, count₂),
          (buffers₁, one, others, refl, effect₁, effects₂),
        )

    -- On a backend and at least one node, with any schedule that has the iterations of each
    -- parallel loop, and fewer than 2 ^ 64 dispatches counted before: `compute_graph` returns true,
    -- and no shape and no size makes the engine throw. Node after node, a node that is a MUL_MAT of
    -- a Q4_0 matrix with one F32 vector, all three with data, writes the dot products of its rows
    -- to its output and is one dispatch; any other node, null ones included, changes nothing. The
    -- profile counts these dispatches, modulo 2 ^ 64.
    pub ggml_backend_xdna_compute_graph_done :
        (context : XdnaBackendContext) (node : Option Node) (nodes : List (Option Node))
        (buffers : Buffers)
        → context.engine.current_profile.num_dispatches < 2 ^ 64
        → (impl : Impl) × (after : Buffers) × (products : ℕ) × (ggml_backend_xdna_compute_graph F
              clock runtime
              (some context)
              (node ∷ nodes)
              buffers
            ≡ done (true, some (record context { engine = impl }), after))
          × (impl.current_profile.num_dispatches
              ≡ (context.engine.current_profile.num_dispatches + products) % 2 ^ 64)
          × Effects (node ∷ nodes) buffers after products
    unfolding ggml_backend_xdna_compute_graph
    ggml_backend_xdna_compute_graph_done context node nodes buffers h =
        let (impl, after, products, returns, count, effects) =
          compute_nodes_done (node ∷ nodes) context.engine buffers h in
        (impl, after, products, rw returns refl, count, effects)

-- A node over two sources, with data.
abbrev pub node_over : ℕ → SourceTensor → SourceTensor → ℕ → Node
node_over op weights activations out = record {
  op = op;
  src0 = some weights;
  src1 = some activations;
  node_data = some out;
}

-- A node over two sources that `supports_op` accepts is run by `compute_graph`, with its rows and
-- columns, where its three tensors have data, and its columns are whole blocks of 32.
pub supports_op-product_of :
    (op : ℕ) (weights activations : SourceTensor) (out w a : ℕ)
    → ggml_backend_xdna_supports_op (some (node_over op weights activations out)) ≡ true
    → weights.data_address ≡ some w
    → activations.data_address ≡ some a
    → (product_of (some (node_over op weights activations out))
        ≡ some (record {
          output = out;
          weights_address = w;
          activations_address = a;
          product_rows = weights.ne1;
          product_columns = weights.ne0;
        }))
      × (weights.ne0 % 32 ≡ 0)
unfolding ggml_backend_xdna_supports_op product_of
supports_op-product_of op weights activations out w a h dw da =
    (rw (dw, da) (ground (arith, h)), ground (arith, h))
