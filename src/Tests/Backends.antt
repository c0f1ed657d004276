-- ===== src/Tests/Backends.antt =====
-- The engine's profile and the ggml backend at concrete inputs.
use xdna_cpp.Base.{
  ℕ, zero, suc, ◌+◌, ◌-◌, ◌*◌, ◌/◌, ◌%◌, ◌^◌, ◌<◌, ◌≡◌, refl, true, List, [], ◌∷◌, some, none,
  get_or, ltb, if◌then◌else◌, arith,
}
use xdna_cpp.Backend.{
  SourceTensor, Buffers, Runtime, XdnaBackendContext, product_of, xdna_backend_magic,
  ggml_backend_xdna_supports_op, ggml_backend_xdna_compute_graph,
}
use xdna_cpp.Backend.Graph.{
  IsSchedule, Effects, ggml_backend_xdna_compute_graph_done, node_over, supports_op-product_of,
}
use xdna_cpp.Base.Memory.{Memory}
use xdna_cpp.Base.Outcome.{done}
use xdna_cpp.Base.Word.{u64}
use xdna_cpp.Engine.Run.Laws.{AllBelow, contains}
use xdna_cpp.Npu.{Clock, Call, Impl, make_impl, start_token_profile, end_token_profile, widen}
use xdna_cpp.Npu.Profile.{run_all, end_token_profile-run_all}
use xdna_cpp.Npu.Widen.{widen-get_or}
use xdna_cpp.Q4.Float.{bf16_to_float}
use xdna_cpp.Q4.Row.Weight.{byte_at}
use xdna_cpp.Tests.Data.{plain_numbers, one_block, activations}

abbrev plain_clock : Clock
plain_clock = record { milliseconds = λ a b. b - a; plus = λ a b. a + b }

abbrev one_call : Call
one_call = record {
  weights = byte_at one_block;
  weight_bytes = 18;
  rows = 1;
  columns = 32;
  order = [];
  start_time = 3;
  end_time = 5;
}

-- A call that runs and one that throws.
abbrev two_calls : List (Call × Memory × Memory)
two_calls =
    (one_call, byte_at activations, λ i. 0)
    ∷ (record one_call { weight_bytes = 17 }, byte_at activations, λ i. 0)
    ∷ []

end_token_profile-run_all_example :
    (let ended =
        end_token_profile plain_clock 9
          (run_all plain_numbers plain_clock two_calls (start_token_profile 1 (make_impl 0 4))) in
      (ended.current_profile.token_index ≡ u64 ((make_impl 0 4).token_counter + 1))
      × (ended.current_profile.num_dispatches ≡ 2)
      × (ended.current_profile.num_transitions ≡ 4)
      × (ended.current_profile.total_token_ms ≡ 8)
      × (end_token_profile plain_clock 10 ended ≡ ended))
end_token_profile-run_all_example =
    end_token_profile-run_all plain_numbers plain_clock (make_impl 0 4) two_calls 1 9 10
      (omega arith)

-- A buffer that has to grow.
widen-get_or_example :
    get_or (widen (λ i. 0x3f80 + i) 3 (7 ∷ [])) 2 0
    ≡ (if ltb 2 3 then bf16_to_float (0x3f80 + 2) else get_or (7 ∷ []) 2 0)
widen-get_or_example = widen-get_or (λ i. 0x3f80 + i) 3 2 (7 ∷ [])

abbrev matrix : SourceTensor
matrix = record { type = 2; ne0 = 32; ne1 = 4; data_address = some 10 }

abbrev vector : SourceTensor
vector = record { type = 0; ne0 = 32; ne1 = 1; data_address = some 11 }

accepted : ggml_backend_xdna_supports_op (some (node_over 18 matrix vector 12)) ≡ true
unfolding ggml_backend_xdna_supports_op
accepted = refl

supports_op-product_of_example :
    (product_of (some (node_over 18 matrix vector 12))
      ≡ some (record {
        output = 12;
        weights_address = 10;
        activations_address = 11;
        product_rows = 4;
        product_columns = 32;
      }))
    × (32 % 32 ≡ 0)
supports_op-product_of_example = supports_op-product_of 18 matrix vector 12 10 11 accepted refl refl

-- The pairs from the first to the last.
abbrev pairs_below : ℕ → List ℕ
pairs_below zero = []
pairs_below (suc p) = p ∷ pairs_below p

abbrev plain_runtime : Runtime
plain_runtime = record { order_for = λ n. pairs_below ((n + 1) / 2); run_start = 3; run_end = 5 }

pairs_below-AllBelow : (n p : ℕ) → p * 2 < n + 2 → AllBelow n (pairs_below p)
pairs_below-AllBelow n zero h = tt
pairs_below-AllBelow n (suc p) h = (omega arith, pairs_below-AllBelow n p (omega arith))

contains-pairs_below : (p q : ℕ) → q < p → contains q (pairs_below p) ≡ true
contains-pairs_below zero q h = absurd (omega (arith, h))
contains-pairs_below (suc p) q h = ground (arith, contains-pairs_below p q)

plain_runtime-IsSchedule : IsSchedule plain_runtime
plain_runtime-IsSchedule = record {
  below = λ n. pairs_below-AllBelow n ((n + 1) / 2) (omega arith);
  covers = λ n p h. contains-pairs_below ((n + 1) / 2) p (omega arith);
}

abbrev backend : XdnaBackendContext
backend = record { magic = xdna_backend_magic; context_index = 0; engine = make_impl 0 4 }

fresh_count : backend.engine.current_profile.num_dispatches < 2 ^ 64
unfolding make_impl
fresh_count = omega arith

-- A product and a null node.
ggml_backend_xdna_compute_graph_done_example :
    (impl : Impl) × (after : Buffers) × (products : ℕ) × (ggml_backend_xdna_compute_graph
        plain_numbers plain_clock plain_runtime
        (some backend)
        (some (node_over 18 matrix vector 12) ∷ none ∷ [])
        (λ a i. a + i)
      ≡ done (true, some (record backend { engine = impl }), after))
    × (impl.current_profile.num_dispatches
        ≡ (backend.engine.current_profile.num_dispatches + products) % 2 ^ 64)
    × Effects plain_numbers
        (some (node_over 18 matrix vector 12) ∷ none ∷ [])
        (λ a i. a + i)
        after
        products
ggml_backend_xdna_compute_graph_done_example =
    ggml_backend_xdna_compute_graph_done plain_numbers plain_clock plain_runtime
      plain_runtime-IsSchedule backend (some (node_over 18 matrix vector 12)) (none ∷ [])
      (λ a i. a + i) fresh_count
