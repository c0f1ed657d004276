-- ===== src/Npu.antt =====
-- `XdnaGemvEngine` of src/xdna-gemv-engine.cpp, built without XRT: its state, the token profile and both runs.
pub mod Profile
pub mod Widen
pub mod Assets
pub mod Metrics
use xdna_cpp.Base.{
  ℕ, zero, suc, ◌+◌, ◌-◌, Bool, true, false, Bytes, List, [], ◌∷◌, ◌++◌, ltb, if◌then◌else◌, length,
  set, get_or, replicate,
}
use xdna_cpp.Base.Float.{Float32}
use xdna_cpp.Base.Loop.{fold_range}
use xdna_cpp.Base.Memory.{Memory}
use xdna_cpp.Base.Outcome.{Outcome, done, thrown, fault}
use xdna_cpp.Base.Word.{u64}
use xdna_cpp.Engine.Run as EngineRun
use xdna_cpp.Engine.Run.{EngineError, Q4GemvEngine, make_engine}
use xdna_cpp.Q4.Float.{bf16_to_float}

-- The clock and the `double` arithmetic of durations: what the profile uses of them.
pub record Clock : Type 0 where
  pub milliseconds : (start end : ℕ) → ℕ
  pub plus : ℕ → ℕ → ℕ

-- `TokenProfile`, with the durations as bit patterns. Nothing writes the five that are always 0.
pub record TokenProfile : Type 0 where
  pub token_index : ℕ
  pub total_token_ms : ℕ
  pub xdna_gemv_ms : ℕ
  pub num_dispatches : ℕ
  pub num_transitions : ℕ

abbrev pub empty_profile : TokenProfile
empty_profile = record {
  token_index = 0;
  total_token_ms = 0;
  xdna_gemv_ms = 0;
  num_dispatches = 0;
  num_transitions = 0;
}

-- `XdnaGemvEngine::Impl`
pub record Impl : Type 0 where
  pub device_index : ℕ
  pub num_columns : ℕ
  pub hw_ready : Bool
  pub persistent_act_f32 : List ℕ
  pub current_profile : TokenProfile
  pub token_start_time : ℕ
  pub profiling_active : Bool
  pub token_counter : ℕ
  pub cpu_engine : Q4GemvEngine

unfoldable pub make_impl : (device_index num_columns : ℕ) → Impl
make_impl device_index num_columns = record {
  device_index = device_index;
  num_columns = num_columns;
  hw_ready = false;
  persistent_act_f32 = [];
  current_profile = empty_profile;
  token_start_time = 0;
  profiling_active = false;
  token_counter = 0;
  cpu_engine = make_engine num_columns 4;
}

abbrev pub is_hardware_ready : Impl → Bool
is_hardware_ready impl = impl.hw_ready

pub start_token_profile : (now : ℕ) → Impl → Impl
start_token_profile now impl =
    let counter = u64 (impl.token_counter + 1) in
    record impl {
      current_profile = record empty_profile { token_index = counter };
      token_counter = counter;
      token_start_time = now;
      profiling_active = true;
    }

abbrev pub stop : Clock → (now : ℕ) → Impl → Bool → Impl
stop clock now impl false = impl
stop clock now impl true = record impl {
  current_profile = record impl.current_profile {
    total_token_ms = clock.milliseconds impl.token_start_time now;
  };
  profiling_active = false;
}

-- The profile that is returned is the current one.
pub end_token_profile : Clock → (now : ℕ) → Impl → Impl
end_token_profile clock now impl = stop clock now impl impl.profiling_active

abbrev pub count_dispatch : Impl → Impl
count_dispatch impl = record impl {
  current_profile = record impl.current_profile {
    num_dispatches = u64 (impl.current_profile.num_dispatches + 1);
    num_transitions = u64 (impl.current_profile.num_transitions + 2);
  };
}

abbrev pub add_time : Clock → (start end : ℕ) → Impl → Impl
add_time clock start end impl = record impl {
  current_profile = record impl.current_profile {
    xdna_gemv_ms = clock.plus impl.current_profile.xdna_gemv_ms (clock.milliseconds start end);
  };
}

-- What a call passes: a buffer, its size, the shape, the order of the parallel loop and the two times.
pub record Call : Type 0 where
  pub weights : Memory
  pub weight_bytes : ℕ
  pub rows : ℕ
  pub columns : ℕ
  pub order : List ℕ
  pub start_time : ℕ
  pub end_time : ℕ

-- The time is added when the processor's engine has returned.
abbrev pub finish_run :
    Clock → Call → Impl → Outcome EngineError Memory → Impl × Outcome EngineError Memory
finish_run clock call impl (done out) =
    (add_time clock call.start_time call.end_time impl, done out)
finish_run clock call impl (thrown e) = (impl, thrown e)
finish_run clock call impl fault = (impl, fault)

-- `persistent_act_f32.resize(K)` where it is smaller, then the first `K` entries.
abbrev pub grown : List ℕ → ℕ → List ℕ
grown buffer k = if ltb (length buffer) k then buffer ++ replicate (k - length buffer) 0 else buffer

pub widen : (activations_bf16 : Memory) → ℕ → List ℕ → List ℕ
widen activations k buffer =
    fold_range k 0 (λ i buffer. set buffer i (bf16_to_float (activations i))) (grown buffer k)

module _ (F : Float32) (clock : Clock) where
  -- The calls go to the processor's engine, whatever `hw_ready` says.
  unfoldable pub run :
      Call → (activations : Memory) → Impl → Memory → Impl × Outcome EngineError Memory
  run call activations impl out = finish_run clock call (count_dispatch impl) (
      EngineRun.run F call.weights activations call.rows call.columns call.weight_bytes call.order
        out)

  unfoldable pub run_bf16 :
      Call → (activations_bf16 : Memory) → Impl → Memory → Impl × Outcome EngineError Memory
  run_bf16 call activations impl out =
      let buffer = widen activations call.columns impl.persistent_act_f32 in
      run call (λ i. get_or buffer i 0) (record impl { persistent_act_f32 = buffer }) out
