-- ===== src/Example/Harness/Whole.antt =====
-- The whole run of the harness: from memory without an engine to the product in the client's
-- buffer.
use api_bridge.Base.{suc, ◌*◌, ◌≡◌, refl, ◌∙◌, arith, some, List, ◌∷◌}
use api_bridge.Types.{Address, ErrorCode, ecode_success, Handle}
use api_bridge.Types.Tag
use api_bridge.Memory.{
  World, Benchmark, BenchmarkHandle, Outcome, returns, M, lookup, engine, description, benchmark,
  benchmark_handle, handles, doubles, lookup-insert_self,
}
use api_bridge.Engine.Handles.Sound.{IsSound}
use api_bridge.Engine.Handles.Caller.{written, written-IsSound, written-Stays}
use api_bridge.Api.Engines
use api_bridge.Api.Benchmarks
use api_bridge.Example.{Platform}
use api_bridge.Example.Matrix.{Matrix, dim, product}
use api_bridge.Example.Benchmark.{Payload, initialize}
use api_bridge.Example.Backend.{example}
use api_bridge.Example.Samples.{flatten}
use api_bridge.Example.Lifecycle.{
  Supports, initialized, engine_handle, started, example_description_is,
}
use api_bridge.Example.Creation.{Order}
use api_bridge.Example.Session.{Places, ◌then◌, with_handle, session}
use api_bridge.Example.Session.Encodes.{IsSquare}
use api_bridge.Example.Session.Ready.{IsReady}
use api_bridge.Example.Session.Steps.{then_runs, with_handle_runs}
use api_bridge.Example.Session.Product.{session-Computes}
use api_bridge.Example.Harness.{Role, Desk, initializing, creating, subscribing, harness}
use api_bridge.Example.Harness.Around.{Around, Stays-Around}
use api_bridge.Example.Harness.Starts.{
  started_runs, started-IsSound, started-Stays, started_cell, started_engine, started_description,
  first_handle, match_first, subscribe_runs, create_runs, after_create, new_benchmark, new_object,
  after_create-IsSound, after_create-Stays, after_create_cell, after_create_handle,
  after_create_benchmark,
}

module _ (platform : Platform) (d : Desk) (m0 m1 : Matrix) (square0 : IsSquare m0)
    (square1 : IsSquare m1) where
  -- Success with the product in the client's buffer, and a sound memory.
  abbrev pub Finishes : Outcome Payload ErrorCode → Type 0
  Finishes r =
      (v : World Payload) × (r ≡ returns ecode_success v)
      × (lookup d.places.p_buffer v.heap
          ≡ some (doubles (flatten (product platform.double_add platform.double_mul m0 m1))))
      × IsSound v

  -- A call before the rest of a run.
  after :
      (m k : M Payload ErrorCode) (w v : World Payload)
      → m w ≡ returns ecode_success v
      → Finishes (k v)
      → Finishes ((m then k) w)
  after m k w v runs (u, rest, result, sound) = (u, then_runs m k w v runs ∙ rest, result, sound)

  -- A read of a cell before the rest of a run.
  after_read :
      (p : Address) (f : Handle → M Payload ErrorCode) (h : Handle) (rest : List Handle)
      (w : World Payload)
      → lookup p w.heap ≡ some (handles (h ∷ rest))
      → Finishes (f h w)
      → Finishes (with_handle p f w)
  after_read p f h rest w at (u, runs, result, sound) =
      (u, with_handle_runs p f h rest w at ∙ runs, result, sound)

  abbrev on : Handle → Places
  on h = record (d.places) { h_benchmark = h }

  ready :
      (h : Handle) (bh : BenchmarkHandle) (bench : Benchmark) (w : World Payload)
      → IsSound w
      → (a : Around d m0 m1 w) → lookup h.p w.heap ≡ some (benchmark_handle bh)
      → lookup bh.p_benchmark w.heap ≡ some (benchmark bench)
      → IsReady (on h) bench (dim * dim) w
  ready h bh bench w sound a at_handle at_benchmark = record {
    sound = sound;
    handle = bh;
    at_handle = at_handle;
    at_benchmark = at_benchmark;
    cells = a.cells;
    array = a.array;
    at_indexers = a.at_indexers;
    good = a.good;
    target = a.target;
    at_buffer = a.at_buffer;
    apart = a.apart;
  }

  init_runs :
      (h : Handle) (bh : BenchmarkHandle) (w : World Payload)
      → IsSound w
      → (a : Around d m0 m1 w) → lookup h.p w.heap ≡ some (benchmark_handle bh)
      → Benchmarks.init_benchmark (example platform) h d.p_bench_desc w ≡ returns ecode_success w
  unfolding Benchmarks.init_benchmark initialize
  init_runs h bh w sound a at = ground (arith, sound.null_free, at, a.at_bench_desc)

  initializing-Finishes :
      (h : Handle) (rest : List Handle) (bh : BenchmarkHandle) (bench : Benchmark)
      (w : World Payload)
      → IsSound w
      → Around d m0 m1 w
      → lookup (d.own Role.benchmark) w.heap ≡ some (handles (h ∷ rest))
      → lookup h.p w.heap ≡ some (benchmark_handle bh)
      → lookup bh.p_benchmark w.heap ≡ some (benchmark bench)
      → Finishes (initializing platform d w)
  initializing-Finishes h rest bh bench w sound a cell at_handle at_benchmark =
      let (v, runs, result, sound_v, keeps) =
        session-Computes platform (on h) bench m0 m1 w
          (ready h bh bench w sound a at_handle at_benchmark) a.samples square0 square1 in
      after_read (d.own Role.benchmark) _ h rest w cell (
        after (Benchmarks.init_benchmark (example platform) h d.p_bench_desc)
          (session platform (on h)) w w (init_runs h bh w sound a at_handle)
          (v, runs, result, sound_v))

  creating-Finishes :
      (h_engine : Handle) (more_engines more_descs : List Handle) (p_desc : Address)
      (w : World Payload)
      → IsSound w
      → Around d m0 m1 w
      → h_engine.tag ≡ Tag.base_engine
      → lookup (d.own Role.engine) w.heap ≡ some (handles (h_engine ∷ more_engines))
      → lookup (d.own Role.description) w.heap ≡ some (handles (first_handle platform ∷ more_descs))
      → lookup h_engine.p w.heap ≡ some (engine (initialized p_desc))
      → lookup p_desc w.heap ≡ some (description example_description_is.0)
      → Finishes (creating platform d w)
  creating-Finishes h_engine more_engines more_descs p_desc w sound a tagged engines descs at
        there =
      let (old, rest, cell) = a.own Role.benchmark in
      let p = d.own Role.benchmark in
      let h_desc = first_handle platform in
      let o : Order h_engine h_desc d.p_params w = record {
        tagged = ground (arith, tagged);
        this = initialized p_desc;
        at_engine = at;
        own_type = refl;
        p_bd = p_desc;
        matches = match_first platform p_desc;
        bench_desc = example_description_is.0;
        at_description = there;
        bench_params = a.bench_params;
        more = a.more;
        at_params = a.at_params;
        array = a.values;
        at_array = a.at_values;
        room = a.enough;
        fits = a.fits;
      } in
      let v = after_create platform p old rest w sound cell h_engine h_desc d.p_params o in
      let here = after_create_cell platform p old rest w sound cell h_engine h_desc d.p_params o in
      after_read (d.own Role.engine) _ h_engine more_engines w engines (
        after_read (d.own Role.description) _ h_desc more_descs w descs (
          after (Engines.create_benchmark (example platform) h_engine h_desc d.p_params p)
            (initializing platform d) w v
            (create_runs platform p old rest w sound cell h_engine h_desc d.p_params o)
            (initializing-Finishes
              (new_benchmark platform p old rest w sound cell h_engine h_desc d.p_params o) rest _
              (new_object platform p old rest w sound cell h_engine h_desc d.p_params o) v
              (after_create-IsSound platform p old rest w sound cell h_engine h_desc d.p_params o)
              (Stays-Around d m0 m1 w v a Role.benchmark
                (after_create-Stays platform p old rest w sound cell h_engine h_desc d.p_params o)
                (_, rest, here))
              here
              (after_create_handle platform p old rest w sound cell h_engine h_desc d.p_params o)
              (after_create_benchmark platform p old rest w sound cell h_engine h_desc d.p_params
                o))))

  subscribing-Finishes :
      (h_engine : Handle) (more_engines : List Handle) (p_desc : Address) (w : World Payload)
      → IsSound w
      → Around d m0 m1 w
      → h_engine.tag ≡ Tag.base_engine
      → lookup (d.own Role.engine) w.heap ≡ some (handles (h_engine ∷ more_engines))
      → lookup h_engine.p w.heap ≡ some (engine (initialized p_desc))
      → lookup p_desc w.heap ≡ some (description example_description_is.0)
      → Finishes (subscribing platform d w)
  subscribing-Finishes h_engine more_engines p_desc w sound a tagged engines at there =
      let (old, rest, cell) = a.own Role.description in
      let p = d.own Role.description in
      let now = first_handle platform ∷ rest in
      let v = written p (handles now) w in
      let stays = written-Stays p (handles (old ∷ rest)) (handles now) w cell tt tt in
      let here = lookup-insert_self p (handles now) w.heap in
      after_read (d.own Role.engine) _ h_engine more_engines w engines (
        after (Engines.subscribe_benchmarks (example platform) h_engine p 1) (creating platform d) w
          v (subscribe_runs platform p old rest w sound cell h_engine p_desc tagged at there)
          (creating-Finishes h_engine more_engines rest p_desc v
            (written-IsSound p (handles (old ∷ rest)) (handles now) w cell tt tt sound)
            (Stays-Around d m0 m1 w v a Role.description stays (_, rest, here)) tagged
            (stays (d.own Role.engine) (handles (h_engine ∷ more_engines)) tt a.separate engines)
            here (stays h_engine.p (engine (initialized p_desc)) tt (ground (arith, cell, at)) at)
            (stays p_desc (description example_description_is.0) tt (ground (arith, cell, there))
              there)))

  -- With the versions that the backend was built for, from a sound memory with the harness's cells,
  -- parameters that fit, the samples of two matrices of the example's dimensions and a buffer for
  -- one, a whole run of the harness succeeds: it starts an engine, subscribes to its benchmark,
  -- creates and initialises it, encodes, encrypts, loads, operates, stores, decrypts and decodes;
  -- the buffer is the product of the two matrices, row by row, and the memory is sound.
  pub harness-Finishes :
      (w : World Payload)
      → Supports platform.versions
      → IsSound w
      → Around d m0 m1 w
      → Finishes (harness platform d w)
  harness-Finishes w supports sound a =
      let (old, rest, cell) = a.own Role.engine in
      let p = d.own Role.engine in
      let v = started platform p rest w in
      let here = started_cell platform p old rest w sound cell in
      after (Engines.init_engine (example platform) p 0 0) (subscribing platform d) w v
        (started_runs platform p old rest w sound cell supports)
        (subscribing-Finishes (engine_handle platform w.next) rest (suc w.next) v
          (started-IsSound platform p old rest w sound cell supports)
          (Stays-Around d m0 m1 w v a Role.engine (started-Stays platform p old rest w sound cell)
            (_, rest, here))
          refl here (started_engine platform p old rest w sound cell)
          (started_description platform p old rest w sound cell))
