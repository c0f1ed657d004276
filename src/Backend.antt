-- ===== src/Backend.antt =====
-- The ggml backend of src/ggml-xdna.cpp, with the tensors of include/xdna/ggml-xdna.h.
pub mod Products
pub mod Graph
use xdna_cpp.Base.{
  ℕ, ◌+◌, ◌*◌, ◌/◌, ◌%◌, ◌≡◌, Bool, true, false, ◌&&◌, ◌||◌, List, [], ◌∷◌, Option, none, some,
  ◌==◌, if◌then◌else◌,
}
use xdna_cpp.Base.Float.{Float32}
use xdna_cpp.Base.Memory.{Memory}
use xdna_cpp.Base.Outcome.{Outcome, done, thrown, fault, ◌>>=◌}
use xdna_cpp.Base.Word.{u64}
use xdna_cpp.Engine.Run.{EngineError, bytes_per_row}
use xdna_cpp.Npu as Npu
use xdna_cpp.Npu.{Clock, Impl, make_impl}

abbrev pub ggml_type_f32 : ℕ
ggml_type_f32 = 0

abbrev pub ggml_type_q4_0 : ℕ
ggml_type_q4_0 = 2

abbrev pub ggml_op_mul_mat : ℕ
ggml_op_mul_mat = 18

-- What the backend reads of a source tensor: its type, `ne[0]`, `ne[1]` and `data`. Sizes of tensors are not negative.
pub record SourceTensor : Type 0 where
  pub type : ℕ
  pub ne0 : ℕ
  pub ne1 : ℕ
  pub data_address : Option ℕ

-- What it reads of a node of the graph. A null pointer is `none`.
pub record Node : Type 0 where
  pub op : ℕ
  pub src0 : Option SourceTensor
  pub src1 : Option SourceTensor
  pub node_data : Option ℕ

-- Each address with the buffer behind it. The buffer of a node is not that of its sources.
abbrev pub Buffers : Type 0
Buffers = ℕ → Memory

pub record XdnaBackendContext : Type 0 where
  pub magic : ℕ
  pub context_index : ℕ
  pub engine : Impl

abbrev pub xdna_backend_magic : ℕ
xdna_backend_magic = 0x58444E41

unfoldable pub ggml_backend_xdna_init : (dev_num : ℕ) → Option XdnaBackendContext
ggml_backend_xdna_init dev_num =
    some
      (record { magic = xdna_backend_magic; context_index = dev_num; engine = make_impl dev_num 4 })

unfoldable pub ggml_backend_is_xdna : Option XdnaBackendContext → Bool
ggml_backend_is_xdna none = false
ggml_backend_is_xdna (some context) = context.magic == xdna_backend_magic

-- A Q4_0 matrix and an F32 vector.
abbrev pub has_types : SourceTensor → SourceTensor → Bool
has_types weights activations = weights.type == ggml_type_q4_0 && activations.type == ggml_type_f32

abbrev supports_sources : Option SourceTensor → Option SourceTensor → Bool
supports_sources none src1 = false
supports_sources (some weights) none = false
supports_sources (some weights) (some activations) =
    has_types weights activations
    && activations.ne1 == 1
    && weights.ne0 % 32 == 0
    && weights.ne1 % 4 == 0

unfoldable pub ggml_backend_xdna_supports_op : Option Node → Bool
ggml_backend_xdna_supports_op none = false
ggml_backend_xdna_supports_op (some node) =
    node.op == ggml_op_mul_mat && supports_sources node.src0 node.src1

-- The product that `compute_graph` runs for a node.
pub record Product : Type 0 where
  pub output : ℕ
  pub weights_address : ℕ
  pub activations_address : ℕ
  pub product_rows : ℕ
  pub product_columns : ℕ

abbrev product_addresses : SourceTensor → (out weights activations : Option ℕ) → Option Product
product_addresses weights none w a = none
product_addresses weights (some out) none a = none
product_addresses weights (some out) (some w) none = none
product_addresses weights (some out) (some w) (some a) = some (record {
  output = out;
  weights_address = w;
  activations_address = a;
  product_rows = weights.ne1;
  product_columns = weights.ne0;
})

abbrev product_sources : Node → Option SourceTensor → Option SourceTensor → Option Product
product_sources node none src1 = none
product_sources node (some weights) none = none
product_sources node (some weights) (some activations) =
    if has_types weights activations && activations.ne1 == 1
    then product_addresses weights node.node_data weights.data_address activations.data_address
    else none

-- The nested tests of the loop in `compute_graph`.
pub product_of : Option Node → Option Product
product_of none = none
product_of (some node) =
    if node.op == ggml_op_mul_mat then product_sources node node.src0 node.src1 else none

-- The order that the runtime picks for the parallel loop over a number of rows, and the times of a run.
pub record Runtime : Type 0 where
  pub order_for : ℕ → List ℕ
  pub run_start : ℕ
  pub run_end : ℕ

-- `buffers[address] = memory`
abbrev pub put : Buffers → ℕ → Memory → Buffers
put buffers address memory b = if b == address then memory else buffers b

module _ (F : Float32) (clock : Clock) (runtime : Runtime) where
  abbrev pub store_output :
      Product → Buffers → Impl × Outcome EngineError Memory → Outcome EngineError (Impl × Buffers)
  store_output product buffers (impl, out) =
      out >>= λ memory. done (impl, put buffers product.output memory)

  abbrev pub call_for : Product → Buffers → Npu.Call
  call_for product buffers = record {
    weights = buffers product.weights_address;
    weight_bytes = u64 (product.product_rows * bytes_per_row product.product_columns);
    rows = product.product_rows;
    columns = product.product_columns;
    order = runtime.order_for product.product_rows;
    start_time = runtime.run_start;
    end_time = runtime.run_end;
  }

  -- `ctx->engine->run(weights, total_weight_bytes, N, K, act, out)`
  pub run_product : Product → Impl → Buffers → Outcome EngineError (Impl × Buffers)
  run_product product impl buffers = store_output product buffers (
      Npu.run F clock (call_for product buffers) (buffers product.activations_address) impl
        (buffers product.output))

  abbrev pub compute_product :
      Option Product → Impl → Buffers → Outcome EngineError (Impl × Buffers)
  compute_product none impl buffers = done (impl, buffers)
  compute_product (some product) impl buffers = run_product product impl buffers

  -- The loop over the nodes.
  pub compute_nodes : List (Option Node) → Impl → Buffers → Outcome EngineError (Impl × Buffers)
  compute_nodes [] impl buffers = done (impl, buffers)
  compute_nodes (node ∷ nodes) impl buffers =
      compute_product (product_of node) impl buffers >>= λ s. compute_nodes nodes s.0 s.1

  -- What it returns, and the engine and the buffers behind it. No node, and a null backend, is a refusal.
  pub ggml_backend_xdna_compute_graph :
      Option XdnaBackendContext
      → List (Option Node)
      → Buffers
      → Outcome EngineError (Bool × Option XdnaBackendContext × Buffers)
  ggml_backend_xdna_compute_graph none nodes buffers = done (false, none, buffers)
  ggml_backend_xdna_compute_graph (some context) [] buffers = done (false, some context, buffers)
  ggml_backend_xdna_compute_graph (some context) (node ∷ nodes) buffers = do
    s ← compute_nodes (node ∷ nodes) context.engine buffers
    done (true, some (record context { engine = s.0 }), s.1)
