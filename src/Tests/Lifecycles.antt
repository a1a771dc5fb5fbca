-- ===== src/Tests/Lifecycles.antt =====
-- Engines and benchmarks of the example backend, from their start to their end.
use api_bridge.Base.{suc, ◌≡◌, refl, arith, some, List, [], ◌∷◌}
use api_bridge.Types.{Address, Handle, null_handle, ecode_success, WorkloadParam}
use api_bridge.Types.Tag
use api_bridge.Memory.{
  World, Benchmark, returns, lookup, insert, engine, handles, benchmark, benchmark_handle,
  workload_params, params,
}
use api_bridge.Api.Engines.{init_engine, create_benchmark, destroy_handle}
use api_bridge.Engine.{match_benchmark, description_handle}
use api_bridge.Engine.Handles.Sound.{IsSound}
use api_bridge.Params.{validate, get}
use api_bridge.Params.Fixed.{matrix_multiply_from}
use api_bridge.Example.Matrix.{dim}
use api_bridge.Example.Backend.{example}
use api_bridge.Example.Benchmark.{Payload}
use api_bridge.Example.Workload.{check_workload, example_descriptor, benchmark_class_tag}
use api_bridge.Example.Accepts.{Fits, check_workload-Fits}
use api_bridge.Example.Lifecycle.{initialized, destroy_handle-init_engine}
use api_bridge.Example.Creation.{Order, destroy_handle-create_benchmark}
use api_bridge.Tests.Start.{start, start-IsSound, small_engine, small_description}
use api_bridge.Tests.Calls.{whole_numbers}
use api_bridge.Tests.Params.{unsigned}

destroy_handle-init_engine_example :
    (g : Handle) × (v : World Payload) × (u : World Payload) × (init_engine
        (example whole_numbers)
        3
        0
        0
        start
      ≡ returns ecode_success v)
    × (lookup 3 v.heap ≡ some (handles (g ∷ null_handle ∷ [])))
    × (lookup g.p v.heap ≡ some (engine (initialized (suc g.p))))
    × (destroy_handle (example whole_numbers) g v ≡ returns ecode_success u)
    × (u.heap ≡ insert 3 (handles (g ∷ null_handle ∷ [])) (start {P = Payload}).heap)
destroy_handle-init_engine_example =
    destroy_handle-init_engine whole_numbers 3 0 0 null_handle (null_handle ∷ []) start
      (refl, refl, omega arith) start-IsSound.fresh refl (omega arith) refl

abbrev pub dims : List WorkloadParam
dims = unsigned 100 ∷ unsigned 100 ∷ unsigned 100 ∷ []

pub dims-Fits : Fits dims
unfolding check_workload dim matrix_multiply_from validate get
dims-Fits = (check_workload-Fits dims).0 refl

-- The memory with parameters of the caller.
abbrev ordering : World Payload
ordering = record start {
  heap =
      (9, workload_params (record { params = 10; count = 3 } ∷ []))
      ∷ (10, params dims)
      ∷ (start {P = Payload}).heap;
  next = 11;
}

ordering-IsSound : IsSound ordering
ordering-IsSound = record {
  fresh = ground arith;
  null_free = refl;
  started = omega arith;
  counted = λ a s e. ground arith;
  owned = λ a s e. ground arith;
  alive = λ q obj e. absurd (ground arith);
}

abbrev engine_1 : Handle
engine_1 = record { p = 1; size = 8; tag = Tag.base_engine }

abbrev description_0 : Handle
description_0 = description_handle whole_numbers.sizes 0 Tag.benchmark_description

first_description : match_benchmark small_engine description_0 ≡ 5
unfolding match_benchmark
first_description = refl

abbrev order : Order engine_1 description_0 9 ordering
order = record {
  tagged = refl;
  this = small_engine;
  at_engine = refl;
  own_type = refl;
  p_bd = 5;
  matches = first_description;
  bench_desc = small_description;
  at_description = refl;
  bench_params = record { params = 10; count = 3 };
  more = [];
  at_params = refl;
  array = dims;
  at_array = refl;
  room = omega arith;
  fits = dims-Fits;
}

abbrev benchmark_of_100 : Benchmark
benchmark_of_100 = record {
  dynamic_type = 1;
  class_tag = benchmark_class_tag;
  engine = 1;
  bench_description = example_descriptor;
  bench_params = dims;
}

destroy_handle-create_benchmark_example :
    (g : Handle) × (v : World Payload) × (u : World Payload) × (q : Address) × (create_benchmark
        (example whole_numbers)
        engine_1
        description_0
        9
        3
        ordering
      ≡ returns ecode_success v)
    × (lookup 3 v.heap ≡ some (handles (g ∷ null_handle ∷ [])))
    × (lookup g.p v.heap
        ≡ some (benchmark_handle (record { p_benchmark = q; p_bench_description = 5 })))
    × (lookup q v.heap ≡ some (benchmark benchmark_of_100))
    × (destroy_handle (example whole_numbers) g v ≡ returns ecode_success u)
    × (u.heap ≡ insert 3 (handles (g ∷ null_handle ∷ [])) ordering.heap)
destroy_handle-create_benchmark_example =
    destroy_handle-create_benchmark whole_numbers engine_1 description_0 9 3 null_handle
      (null_handle ∷ []) ordering order ordering-IsSound refl
