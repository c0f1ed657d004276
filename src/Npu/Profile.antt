-- ===== src/Npu/Profile.antt =====
-- The token profile counts the runs between its start and its end.
use xdna_cpp.Base.{
  ℕ, ◌+◌, ◌*◌, ◌%◌, ◌^◌, ◌<◌, ◌≡◌, refl, sym, ap, ◌∙◌, true, List, [], ◌∷◌, length, arith,
}
use xdna_cpp.Base.Float.{Float32}
use xdna_cpp.Base.Memory.{Memory}
use xdna_cpp.Base.Outcome.{Outcome, done, thrown, fault}
use xdna_cpp.Base.Word.{u64}
use xdna_cpp.Engine.Run.{EngineError}
use xdna_cpp.Npu.{
  Clock, Impl, Call, start_token_profile, end_token_profile, stop, count_dispatch, finish_run, run,
}

module _ (F : Float32) (clock : Clock) where
  -- Calls one after the other, each with its activations and its output; what they return is dropped.
  abbrev pub run_all : List (Call × Memory × Memory) → Impl → Impl
  run_all [] impl = impl
  run_all (c ∷ calls) impl = run_all calls (run F clock c.0 c.1 impl c.2).0

  -- The fields that a run leaves as they are, and its two counts.
  record Counts (n : ℕ) (impl impl' : Impl) : Type 0 where
    dispatches :
        impl'.current_profile.num_dispatches ≡ (impl.current_profile.num_dispatches + n) % 2 ^ 64
    transitions :
        impl'.current_profile.num_transitions
        ≡ (impl.current_profile.num_transitions + n * 2) % 2 ^ 64
    index : impl'.current_profile.token_index ≡ impl.current_profile.token_index
    active : impl'.profiling_active ≡ impl.profiling_active
    started : impl'.token_start_time ≡ impl.token_start_time

  finish_run-Counts :
      (call : Call) (impl : Impl) (out : Outcome EngineError Memory)
      → Counts 1 impl (finish_run clock call (count_dispatch impl) out).0
  finish_run-Counts call impl (done out) = record {
    dispatches = refl;
    transitions = refl;
    index = refl;
    active = refl;
    started = refl;
  }
  finish_run-Counts call impl (thrown e) = record {
    dispatches = refl;
    transitions = refl;
    index = refl;
    active = refl;
    started = refl;
  }
  finish_run-Counts call impl fault = record {
    dispatches = refl;
    transitions = refl;
    index = refl;
    active = refl;
    started = refl;
  }

  run-Counts :
      (call : Call) (x out : Memory) (impl : Impl) → Counts 1 impl (run F clock call x impl out).0
  unfolding run
  run-Counts call x out impl = finish_run-Counts call impl _

  run_all-Counts :
      (calls : List (Call × Memory × Memory)) (impl : Impl)
      → impl.current_profile.num_dispatches < 2 ^ 64
      → impl.current_profile.num_transitions < 2 ^ 64
      → Counts (length calls) impl (run_all calls impl)
  run_all-Counts [] impl d t = record {
    dispatches = omega (arith, d);
    transitions = omega (arith, t);
    index = refl;
    active = refl;
    started = refl;
  }
  run_all-Counts (c ∷ calls) impl d t =
      let one = run-Counts c.0 c.1 c.2 impl in
      let rest =
        run_all-Counts calls (run F clock c.0 c.1 impl c.2).0 (omega (arith, one.dispatches))
          (omega (arith, one.transitions)) in
      record {
        dispatches = omega (arith, one.dispatches, rest.dispatches);
        transitions = omega (arith, one.transitions, rest.transitions);
        index = rest.index ∙ one.index;
        active = rest.active ∙ one.active;
        started = rest.started ∙ one.started;
      }

  -- A profile that is started, followed by any calls of `run` (less than 2 ^ 63), and ended, has
  -- the next token's index, one dispatch and two transitions for each call, whether the call
  -- returned or threw, and the time between start and end. To end it once more, at whatever time,
  -- changes nothing.
  pub end_token_profile-run_all :
      (impl : Impl) (calls : List (Call × Memory × Memory)) (t₀ t₁ t₂ : ℕ)
      → length calls * 2 < 2 ^ 64
      → (let ended = end_token_profile clock t₁ (run_all calls (start_token_profile t₀ impl)) in
          (ended.current_profile.token_index ≡ u64 (impl.token_counter + 1))
          × (ended.current_profile.num_dispatches ≡ length calls)
          × (ended.current_profile.num_transitions ≡ length calls * 2)
          × (ended.current_profile.total_token_ms ≡ clock.milliseconds t₀ t₁)
          × (end_token_profile clock t₂ ended ≡ ended))
  unfolding end_token_profile start_token_profile
  end_token_profile-run_all impl calls t₀ t₁ t₂ h =
      let last = run_all calls (start_token_profile t₀ impl) in
      let counts = run_all-Counts calls (start_token_profile t₀ impl) (omega arith) (omega arith) in
      let ends : end_token_profile clock t₁ last ≡ stop clock t₁ last true =
        ap (stop clock t₁ last) counts.active in
      (
        ap (λ (i : Impl). i.current_profile.token_index) ends ∙ counts.index,
        ap (λ (i : Impl). i.current_profile.num_dispatches) ends ∙ omega (arith, counts.dispatches),
        ap (λ (i : Impl). i.current_profile.num_transitions) ends
            ∙ omega (arith, counts.transitions),
        ap (λ (i : Impl). i.current_profile.total_token_ms) ends
            ∙ ap (λ (t : ℕ). clock.milliseconds t t₁) counts.started,
        ap (end_token_profile clock t₂) ends ∙ sym ends,
      )
