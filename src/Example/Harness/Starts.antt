-- ===== src/Example/Harness/Starts.antt =====
-- The calls of the harness before the session: each succeeds, keeps the memory sound and leaves the
-- caller's other objects alone.
use api_bridge.Base.{ℕ, suc, ◌≡◌, ◌≢◌, refl, subst, arith, some, List, [], ◌∷◌}
use api_bridge.Types.{Address, Handle, ecode_success}
use api_bridge.Types.Tag
use api_bridge.Memory.{
  World, Object, Benchmark, returns, lookup, handles, engine, description, benchmark,
  benchmark_handle, lookup-insert, lookup-insert_self, lookup_lt,
}
use api_bridge.Engine.Handles.Sound.{IsSound}
use api_bridge.Engine.Handles.Safe.{EndsSound}
use api_bridge.Engine.Handles.Caller.{Stays, written}
use api_bridge.Engine.{match_benchmark, description_handle}
use api_bridge.Engine.Subscription.{subscribe_benchmarks_fills, match_benchmark-description_handle}
use api_bridge.Api.{check_handle_bits}
use api_bridge.Api.Engines
use api_bridge.Api.Calls.{CodeCall, run_code}
use api_bridge.Api.Safe.{run_code-IsSafe}
use api_bridge.Example.{Platform}
use api_bridge.Example.Benchmark.{Payload}
use api_bridge.Example.Backend.{example}
use api_bridge.Example.Safe.{example-IsSafeBackend}
use api_bridge.Example.Lifecycle.{
  Supports, initialized, engine_handle, started, init_engine_lem, example_description_is,
  example_description_tag,
}
use api_bridge.Example.Creation.{Order, given, created, bench, create_benchmark_lem}

module _ (platform : Platform) where
  -- A call of the C API that returns leaves a sound memory.
  ends-IsSound :
      (c : CodeCall) (n : ℕ) (w v : World Payload)
      → IsSound w
      → run_code (example platform) c w ≡ returns n v
      → IsSound v
  ends-IsSound c n w v sound e =
      subst EndsSound e
        ((run_code-IsSafe (example platform) (example-IsSafeBackend platform) c).ends w sound)

  -- The handle of the engine's first description.
  abbrev pub first_handle : Handle
  first_handle = description_handle platform.sizes 0 Tag.benchmark_description

  pub match_first : (p_desc : Address) → match_benchmark (initialized p_desc) first_handle ≡ p_desc
  match_first p_desc =
      match_benchmark-description_handle (initialized p_desc) platform.sizes 0
        Tag.benchmark_description p_desc refl (omega arith)

  module _ (p : Address) (old : Handle) (rest : List Handle) (w : World Payload) (sound : IsSound w)
      (cell : lookup p w.heap ≡ some (handles (old ∷ rest))) where
    nonnull : p ≢ 0
    nonnull e = ground (arith, sound.null_free, cell)

    below : (a : Address) (o : Object Payload) → lookup a w.heap ≡ some o → a ≢ w.next
    below a o at same = omega (arith, lookup_lt w.next a o w.heap sound.fresh at)

    -- After `initEngine`.
    pub started-IsSound : Supports platform.versions → IsSound (started platform p rest w)
    unfolding run_code
    started-IsSound supports =
        ends-IsSound (CodeCall.init_engine p 0 0) ecode_success w (started platform p rest w) sound
          (init_engine_lem platform p 0 0 old rest w supports sound.fresh nonnull cell)

    pub started-Stays : Stays p w (started platform p rest w)
    started-Stays a o plain ne at = ground (
      arith,
      lookup_lt w.next a o w.heap sound.fresh at,
      lookup_lt w.next p (handles (old ∷ rest)) w.heap sound.fresh cell,
      lookup-insert p a (handles (engine_handle platform w.next ∷ rest)) w.heap,
    )

    pub started_runs :
        Supports platform.versions
        → Engines.init_engine (example platform) p 0 0 w
          ≡ returns ecode_success (started platform p rest w)
    started_runs supports =
        init_engine_lem platform p 0 0 old rest w supports sound.fresh nonnull cell

    pub started_cell :
        lookup p (started platform p rest w).heap
        ≡ some (handles (engine_handle platform w.next ∷ rest))
    started_cell = ground (
      arith,
      lookup_lt w.next p (handles (old ∷ rest)) w.heap sound.fresh cell,
      lookup-insert_self p (handles (engine_handle platform w.next ∷ rest)) w.heap,
    )

    pub started_engine :
        lookup w.next (started platform p rest w).heap ≡ some (engine (initialized (suc w.next)))
    started_engine = ground (
      arith,
      lookup_lt w.next p (handles (old ∷ rest)) w.heap sound.fresh cell,
      lookup-insert p w.next (handles (engine_handle platform w.next ∷ rest)) w.heap,
    )

    pub started_description :
        lookup (suc w.next) (started platform p rest w).heap
        ≡ some (description example_description_is.0)
    started_description = ground (
      arith,
      lookup_lt w.next p (handles (old ∷ rest)) w.heap sound.fresh cell,
      lookup-insert p (suc w.next) (handles (engine_handle platform w.next ∷ rest)) w.heap,
    )

    -- After `subscribeBenchmarks`, of an engine as `initEngine` leaves it.
    pub subscribe_runs :
        (h_engine : Handle) (p_desc : Address)
        → h_engine.tag ≡ Tag.base_engine
        → lookup h_engine.p w.heap ≡ some (engine (initialized p_desc))
        → lookup p_desc w.heap ≡ some (description example_description_is.0)
        → Engines.subscribe_benchmarks (example platform) h_engine p 1 w
          ≡ returns ecode_success (written p (handles (first_handle ∷ rest)) w)
    unfolding Engines.subscribe_benchmarks check_handle_bits
    subscribe_runs h_engine p_desc tagged at there =
        let fills =
          subscribe_benchmarks_fills platform.sizes h_engine.p p (initialized p_desc)
            (Tag.benchmark_description ∷ []) (old ∷ rest) w at cell nonnull
            ((example_description_is.0, there, example_description_tag), tt) (omega arith) in
        ground (arith, tagged, sound.null_free, at, nonnull, fills)

    -- After `createBenchmark`.
    module _ (h_engine h_bench_desc : Handle) (p_params : Address)
        (o : Order h_engine h_bench_desc p_params w) where
      abbrev pub after_create : World Payload
      after_create = created platform h_engine h_bench_desc p_params p old rest w o sound cell

      abbrev pub new_benchmark : Handle
      new_benchmark = given platform h_engine h_bench_desc p_params p old rest w o sound cell

      pub create_runs :
          Engines.create_benchmark (example platform) h_engine h_bench_desc p_params p w
          ≡ returns ecode_success after_create
      create_runs =
          create_benchmark_lem platform h_engine h_bench_desc p_params p old rest w o sound cell

      pub after_create-IsSound : IsSound after_create
      unfolding run_code
      after_create-IsSound =
          ends-IsSound (CodeCall.create_benchmark h_engine h_bench_desc p_params p) ecode_success w
            after_create sound create_runs

      pub after_create-Stays : Stays p w after_create
      after_create-Stays a q plain ne at = ground (
        arith,
        lookup_lt w.next a q w.heap sound.fresh at,
        lookup_lt w.next p (handles (old ∷ rest)) w.heap sound.fresh cell,
        lookup-insert p a (handles (new_benchmark ∷ rest)) w.heap,
      )

      pub after_create_cell : lookup p after_create.heap ≡ some (handles (new_benchmark ∷ rest))
      after_create_cell = ground (
        arith,
        lookup_lt w.next p (handles (old ∷ rest)) w.heap sound.fresh cell,
        lookup-insert_self p (handles (new_benchmark ∷ rest)) w.heap,
      )

      pub after_create_handle :
          lookup new_benchmark.p after_create.heap
          ≡ some (benchmark_handle (record { p_benchmark = w.next; p_bench_description = o.p_bd }))
      after_create_handle = ground (
        arith,
        lookup_lt w.next p (handles (old ∷ rest)) w.heap sound.fresh cell,
        lookup-insert p (suc w.next) (handles (new_benchmark ∷ rest)) w.heap,
      )

      abbrev pub new_object : Benchmark
      new_object = bench platform h_engine h_bench_desc p_params p old rest w o sound cell

      pub after_create_benchmark : lookup w.next after_create.heap ≡ some (benchmark new_object)
      after_create_benchmark = ground (
        arith,
        lookup_lt w.next p (handles (old ∷ rest)) w.heap sound.fresh cell,
        lookup-insert p w.next (handles (new_benchmark ∷ rest)) w.heap,
      )
