-- ===== src/Backend/Products.antt =====
-- Which nodes `compute_graph` of src/ggml-xdna.cpp runs.
use xdna_cpp.Base.{
  ℕ, ◌≡◌, refl, Bool, true, false, ◌&&◌, Option, none, some, ◌⊎◌, inl, inr, ◌==◌, if◌then◌else◌,
  arith,
}
use xdna_cpp.Backend.{
  SourceTensor, Node, Product, product_of, product_sources, product_addresses, ggml_type_f32,
  ggml_type_q4_0, ggml_op_mul_mat, has_types,
}

-- The node is a product of a Q4_0 matrix with one F32 vector, all with data: the product has its addresses, a row for
-- each row of the matrix, and the columns of the matrix.
pub record IsProduct (pointer : Option Node) (product : Product) : Type 0 where
  pub node : Node
  pub weights : SourceTensor
  pub activations : SourceTensor
  pub not_null : pointer ≡ some node
  pub mul_mat : node.op ≡ ggml_op_mul_mat
  pub first : node.src0 ≡ some weights
  pub second : node.src1 ≡ some activations
  pub matrix_type : weights.type ≡ ggml_type_q4_0
  pub vector_type : activations.type ≡ ggml_type_f32
  pub one_vector : activations.ne1 ≡ 1
  pub node_data : node.node_data ≡ some product.output
  pub weights_data : weights.data_address ≡ some product.weights_address
  pub activations_data : activations.data_address ≡ some product.activations_address
  pub rows : weights.ne1 ≡ product.product_rows
  pub columns : weights.ne0 ≡ product.product_columns

-- The tests of the code accept such a node.
IsProduct-product_of :
    (pointer : Option Node) (product : Product)
    → IsProduct pointer product
    → product_of pointer ≡ some product
unfolding product_of
IsProduct-product_of pointer product is = rw (
  is.not_null, is.mul_mat, is.first, is.second, is.matrix_type, is.vector_type, is.one_vector,
  is.node_data, is.weights_data, is.activations_data, is.rows, is.columns,
)

abbrev product_with : SourceTensor → (out w a : ℕ) → Product
product_with weights out w a = record {
  output = out;
  weights_address = w;
  activations_address = a;
  product_rows = weights.ne1;
  product_columns = weights.ne0;
}

-- A node is a product and the code finds it, or the code finds none.
abbrev Found : Option Node → Option Product → Type 0
Found pointer found =
    ((product : Product) × (found ≡ some product) × IsProduct pointer product) ⊎ (found ≡ none)

module _ (node : Node) (weights activations : SourceTensor) (first : node.src0 ≡ some weights)
    (second : node.src1 ≡ some activations) (mul_mat : node.op ≡ ggml_op_mul_mat) where
  product_addresses-Found :
      (out w a : Option ℕ)
      → node.node_data ≡ out
      → weights.data_address ≡ w
      → activations.data_address ≡ a
      → weights.type ≡ ggml_type_q4_0
      → activations.type ≡ ggml_type_f32
      → activations.ne1 ≡ 1
      → Found (some node) (product_addresses weights out w a)
  product_addresses-Found none w a n d e matrix vector single = inr refl
  product_addresses-Found (some out) none a n d e matrix vector single = inr refl
  product_addresses-Found (some out) (some w) none n d e matrix vector single = inr refl
  product_addresses-Found (some out) (some w) (some a) n d e matrix vector single = inl (
    product_with weights out w a,
    refl,
    record {
      node = node;
      weights = weights;
      activations = activations;
      not_null = refl;
      mul_mat = mul_mat;
      first = first;
      second = second;
      matrix_type = matrix;
      vector_type = vector;
      one_vector = single;
      node_data = n;
      weights_data = d;
      activations_data = e;
      rows = refl;
      columns = refl;
    },
  )

  guarded-Found :
      (accepted : Bool)
      → (has_types weights activations && activations.ne1 == 1) ≡ accepted
      → Found (some node) (
          if accepted
          then product_addresses weights node.node_data weights.data_address
              activations.data_address
          else none)
  guarded-Found false h = inr refl
  guarded-Found true h =
      product_addresses-Found node.node_data weights.data_address activations.data_address refl refl
        refl (ground (arith, h)) (ground (arith, h)) (ground (arith, h))

product_sources-Found :
    (node : Node) (src0 src1 : Option SourceTensor)
    → node.op ≡ ggml_op_mul_mat
    → node.src0 ≡ src0
    → node.src1 ≡ src1
    → Found (some node) (product_sources node src0 src1)
product_sources-Found node none src1 mul_mat first second = inr refl
product_sources-Found node (some weights) none mul_mat first second = inr refl
product_sources-Found node (some weights) (some activations) mul_mat first second =
    guarded-Found node weights activations first second mul_mat _ refl

operation-Found :
    (node : Node) (is_mul_mat : Bool)
    → (node.op == ggml_op_mul_mat) ≡ is_mul_mat
    → Found (some node) (if is_mul_mat then product_sources node node.src0 node.src1 else none)
operation-Found node false h = inr refl
operation-Found node true h =
    product_sources-Found node node.src0 node.src1 (ground (arith, h)) refl refl

product_of-Found : (pointer : Option Node) → Found pointer (product_of pointer)
unfolding product_of
product_of-Found none = inr refl
product_of-Found (some node) = operation-Found node _ refl

-- The code finds the product that a node is, or it finds none and the node is no product.
pub product_of-IsProduct :
    (pointer : Option Node)
    → ((product : Product) × (product_of pointer ≡ some product) × IsProduct pointer product)
      ⊎ ((product_of pointer ≡ none) × ((product : Product) → ¬ IsProduct pointer product))
product_of-IsProduct pointer = elim (product_of-Found pointer) [
  | inl found ↦ inl found
  | inr missing ↦
      inr (missing, λ product is. ground (arith, missing, IsProduct-product_of pointer product is))
]
