-- ===== src/Tests/Start.antt =====
-- A memory with an engine, a benchmark, and arrays of the caller, before any handle is created.
use api_bridge.Base.{ℕ, zero, suc, ◌<◌, ◌≡◌, refl, arith, some, List, [], ◌∷◌, get_elem?}
use api_bridge.Types.{null_handle, DataPack}
use api_bridge.Types.Tag
use api_bridge.Memory.{
  World, Engine, Benchmark, Description, engine, benchmark, description, handles, indexers,
  data_packs, chars,
}
use api_bridge.Engine.{initial_error_desc}
use api_bridge.Engine.Handles.Sound.{IsSound}
use api_bridge.Example.Engine.{example_engine}
use api_bridge.Example.Workload.{example_descriptor, benchmark_class_tag}
use api_bridge.Example.Stages.{one_value}

abbrev pub small_engine : Engine
small_engine = record (example_engine) { descriptors = 5 ∷ 6 ∷ [] }

abbrev pub small_description : Description
small_description = record {
  dynamic_type = 1;
  class_tag = Tag.benchmark_description;
  descriptor = example_descriptor;
  default_params = [];
}

abbrev pub small_benchmark : Benchmark
small_benchmark = record {
  dynamic_type = 1;
  class_tag = benchmark_class_tag;
  engine = 1;
  bench_description = example_descriptor;
  bench_params = [];
}

abbrev pub two_packs : List DataPack
two_packs =
    record { p_buffers = 0; buffer_count = 0; param_position = 1 }
    ∷ record { p_buffers = 0; buffer_count = 0; param_position = 0 }
    ∷ []

abbrev pub start : {P : Type 0} → World P
start = record {
  heap =
      (1, engine small_engine)
      ∷ (2, benchmark small_benchmark)
      ∷ (3, handles (null_handle ∷ null_handle ∷ []))
      ∷ (4, indexers (one_value ∷ one_value ∷ []))
      ∷ (5, description small_description)
      ∷ (6, description small_description)
      ∷ (7, data_packs two_packs)
      ∷ (8, chars (1 ∷ 2 ∷ 3 ∷ []))
      ∷ [];
  next = 9;
  last_error = 0;
  last_error_description = [];
  map_error_desc = initial_error_desc;
}

pub both_one_value : (j : ℕ) → j < 2 → get_elem? (one_value ∷ one_value ∷ []) j ≡ some one_value
both_one_value zero lt = refl
both_one_value (suc zero) lt = refl
both_one_value (suc (suc j)) lt = absurd (omega arith)

pub start-IsSound : {P : Type 0} → IsSound {P = P} start
start-IsSound = record {
  fresh = ground arith;
  null_free = refl;
  started = omega arith;
  counted = λ a s e. ground arith;
  owned = λ a s e. ground arith;
  alive = λ q obj e. absurd (ground arith);
}
