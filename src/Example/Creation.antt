-- ===== src/Example/Creation.antt =====
-- The life of a benchmark, from `createBenchmark` of hebench/api_bridge/src/main.cpp to
-- `destroyHandle`, on the example backend.
use api_bridge.Base.{
  suc, ◌≡◌, ◌≤◌, refl, arith, some, List, ◌∷◌, length, take, bit_and, bit_or, length-take,
}
use api_bridge.Types.{Address, Handle, ecode_success, WorkloadParam, WorkloadParams}
use api_bridge.Types.Tag
use api_bridge.Memory.{
  World, Engine, Benchmark, Description, returns, lookup, insert, engine, description, benchmark,
  benchmark_handle, handles, workload_params, params, lookup-insert, lookup-insert_self, lookup_lt,
}
use api_bridge.Api.{check_handle_bits}
use api_bridge.Api.Engines.{create_benchmark, destroy_handle}
use api_bridge.Benchmark.{base_benchmark_with}
use api_bridge.Engine.{match_benchmark}
use api_bridge.Engine.Benchmarks
use api_bridge.Engine.Handles.Sound.{IsSound}
use api_bridge.Example.{Platform, example_type}
use api_bridge.Example.Workload.{benchmark_class_tag}
use api_bridge.Example.Accepts.{Fits, check_workload-Fits}
use api_bridge.Example.Description
use api_bridge.Example.Backend.{example}
use api_bridge.Example.Benchmark.{Payload}

-- The arguments of `createBenchmark`: an engine, one of its descriptions, and parameters that the
-- benchmark accepts.
pub record Order (h_engine h_bench_desc : Handle) (p_params : Address) (w : World Payload)
    : Type 0 where
  pub tagged : bit_and h_engine.tag Tag.base_engine ≡ Tag.base_engine
  pub this : Engine
  pub at_engine : lookup h_engine.p w.heap ≡ some (engine this)
  pub own_type : this.dynamic_type ≡ example_type
  pub p_bd : Address
  pub matches : match_benchmark this h_bench_desc ≡ p_bd
  pub bench_desc : Description
  pub at_description : lookup p_bd w.heap ≡ some (description bench_desc)
  pub bench_params : WorkloadParams
  pub more : List WorkloadParams
  pub at_params : lookup p_params w.heap ≡ some (workload_params (bench_params ∷ more))
  pub array : List WorkloadParam
  pub at_array : lookup bench_params.params w.heap ≡ some (params array)
  pub room : bench_params.count ≤ length array
  pub fits : Fits (take bench_params.count array)

module _ (platform : Platform) (h_engine h_bench_desc : Handle) (p_params p : Address)
    (old : Handle) (rest : List Handle) (w : World Payload)
    (o : Order h_engine h_bench_desc p_params w) (sound : IsSound w)
    (cell : lookup p w.heap ≡ some (handles (old ∷ rest))) where
  abbrev pub bench : Benchmark
  bench = record {
    dynamic_type = example_type;
    class_tag = benchmark_class_tag;
    engine = h_engine.p;
    bench_description = o.bench_desc.descriptor;
    bench_params = take o.bench_params.count o.array;
  }

  abbrev pub given : Handle
  given = record {
    p = suc w.next;
    size = platform.sizes.benchmark_handle;
    tag = bit_or (bit_or benchmark_class_tag Tag.base_benchmark) Tag.benchmark_description;
  }

  abbrev pub with_benchmark : World Payload
  with_benchmark = record w {
    heap =
        (
          suc w.next,
          benchmark_handle (record { p_benchmark = w.next; p_bench_description = o.p_bd }),
        )
        ∷ (w.next, benchmark bench)
        ∷ w.heap;
    next = suc (suc w.next);
  }

  abbrev pub created : World Payload
  created = record with_benchmark { heap = insert p (handles (given ∷ rest)) with_benchmark.heap }

  abbrev ended : World Payload
  ended = record created { heap = insert p (handles (given ∷ rest)) w.heap }

  construct_lem :
      Description.create_benchmark o.p_bd h_engine.p p_params w
      ≡ returns w.next (record w { heap = (w.next, benchmark bench) ∷ w.heap; next = suc w.next })
  unfolding Description.create_benchmark Description.example_benchmark base_benchmark_with
  construct_lem =
      let accepted = check_workload-Fits (take o.bench_params.count o.array) in
      let enough : 3 ≤ o.bench_params.count =
        omega (arith, o.fits.0, length-take o.bench_params.count o.array) in
      ground (
        arith,
        sound.null_free,
        o.at_engine,
        o.own_type,
        o.at_description,
        o.at_params,
        o.at_array,
        o.room,
        accepted.1 o.fits,
        enough,
      )

  pub create_benchmark_lem :
      create_benchmark (example platform) h_engine h_bench_desc p_params p w
      ≡ returns ecode_success created
  unfolding create_benchmark Benchmarks.create_benchmark check_handle_bits
  create_benchmark_lem = ground (
    arith,
    construct_lem,
    sound.null_free,
    o.at_engine,
    o.tagged,
    o.matches,
    o.at_description,
    cell,
    lookup_lt w.next p (handles (old ∷ rest)) w.heap sound.fresh cell,
  )

  destroy_handle_lem : destroy_handle (example platform) given created ≡ returns ecode_success ended
  unfolding destroy_handle Benchmarks.destroy_benchmark Description.destroy_benchmark
      check_handle_bits
  destroy_handle_lem = ground (
    arith,
    sound.null_free,
    sound.started,
    o.at_description,
    cell,
    lookup_lt w.next p (handles (old ∷ rest)) w.heap sound.fresh cell,
  )

  -- In a sound memory, `createBenchmark` of an engine, one of its descriptions and parameters that
  -- fit succeeds and puts the handle of a new benchmark, with those parameters, in the caller's
  -- cell; destroying that handle succeeds and leaves every object as it was before, but for the
  -- cell.
  pub destroy_handle-create_benchmark :
      (g : Handle) × (v : World Payload) × (u : World Payload) × (q : Address) × (create_benchmark
          (example platform)
          h_engine
          h_bench_desc
          p_params
          p
          w
        ≡ returns ecode_success v)
      × (lookup p v.heap ≡ some (handles (g ∷ rest)))
      × (lookup g.p v.heap
          ≡ some (benchmark_handle (record { p_benchmark = q; p_bench_description = o.p_bd })))
      × (lookup q v.heap ≡ some (benchmark bench))
      × (destroy_handle (example platform) g v ≡ returns ecode_success u)
      × (u.heap ≡ insert p (handles (g ∷ rest)) w.heap)
  destroy_handle-create_benchmark =
      let before = lookup_lt w.next p (handles (old ∷ rest)) w.heap sound.fresh cell in
      (
        given,
        created,
        ended,
        w.next,
        create_benchmark_lem,
        lookup-insert_self p (handles (given ∷ rest)) with_benchmark.heap,
        ground (
          arith,
          before,
          lookup-insert p (suc w.next) (handles (given ∷ rest)) with_benchmark.heap,
        ),
        ground (arith, before, lookup-insert p w.next (handles (given ∷ rest)) with_benchmark.heap),
        destroy_handle_lem,
        refl,
      )
