-- ===== src/Benchmark.antt =====
-- `BaseBenchmark` of hebench/api_bridge/src/benchmark.cpp. The child `Description` is the class
-- `BenchmarkDescription` of that file.
pub mod Defaults
pub mod Description
pub mod Find
use api_bridge.Base.{
  ℕ, zero, suc, ◌+◌, Bool, true, false, Option, none, some, List, [], ◌++◌, ltb, leb, ◌==◌,
  if◌then◌else◌, length, take,
}
use api_bridge.Text.{codes, to_string}
use api_bridge.Types.{
  Address, null, ecode_critical_error, WorkloadParam, WorkloadParams, BenchmarkDescriptor, DataPack,
  DataPackCollection,
}
use api_bridge.Memory.{
  branch, Benchmark, M, ◌>>=◌, ◌>>◌, pure, throw_if, deref, assign, defined, index, as_params,
  as_benchmark, benchmark, as_data_packs,
}
use api_bridge.Engine.{class_error}

-- The constructor without parameters. The derived class gives the two tags.
unfoldable pub base_benchmark : ℕ → ℕ → Address → BenchmarkDescriptor → Benchmark
base_benchmark dynamic_type class_tag this_engine bench_desc = record {
  dynamic_type = dynamic_type;
  class_tag = class_tag;
  engine = this_engine;
  bench_description = bench_desc;
  bench_params = [];
}

module _ {P : Type 0} where
  -- The constructor with parameters, which it copies.
  unfoldable pub base_benchmark_with :
      ℕ → ℕ → Address → BenchmarkDescriptor → WorkloadParams → M P Benchmark
  unfolding base_benchmark
  base_benchmark_with dynamic_type class_tag this_engine bench_desc bench_params = do
    let base = base_benchmark dynamic_type class_tag this_engine bench_desc
    branch (ltb 0 bench_params.count)
        (do
          array ← deref as_params bench_params.params
          defined (if leb bench_params.count (length array) then some tt else none)
          pure (record base { bench_params = take bench_params.count array }))
        (pure base)

  -- `initialize`, where a class does not override it.
  unfoldable pub initialize : Address → BenchmarkDescriptor → M P (Unit {0})
  initialize this bench_desc_concrete = pure tt

  -- The accessors.
  abbrev pub get_descriptor : Address → M P BenchmarkDescriptor
  get_descriptor this = do bench ← deref as_benchmark this; pure bench.bench_description

  abbrev pub get_workload_parameters : Address → M P (List WorkloadParam)
  get_workload_parameters this = do bench ← deref as_benchmark this; pure bench.bench_params

  abbrev pub get_engine : Address → M P Address
  get_engine this = do bench ← deref as_benchmark this; pure bench.engine

  unfoldable pub set_descriptor : Address → BenchmarkDescriptor → M P (Unit {0})
  set_descriptor this value = do
    bench ← deref as_benchmark this
    assign as_benchmark this (benchmark (record bench { bench_description = value }))

  -- The loop of `findDataPackIndex` at round `i`, with `left` rounds left.
  unfoldable pub find_loop : List DataPack → ℕ → ℕ → ℕ → ℕ → ℕ → M P ℕ
  find_loop packs pack_count param_position zero i retval = pure retval
  find_loop packs pack_count param_position (suc left) i retval =
      let rest = (do
        pack ← index packs i
        find_loop packs pack_count param_position left (i + 1)
            (if pack.param_position == param_position then i else retval)) in
      branch (leb pack_count retval) rest (pure retval)

  -- The first test: the pack at the position itself, if there is one.
  unfoldable pub is_in_place : List DataPack → ℕ → ℕ → M P Bool
  is_in_place packs pack_count param_position =
      branch (ltb param_position pack_count)
        (do pack ← index packs param_position; pure (pack.param_position == param_position))
        (pure false)

  unfoldable pub find_data_pack_index : DataPackCollection → ℕ → M P ℕ
  unfolding find_loop is_in_place
  find_data_pack_index parameters param_position =
      branch (parameters.p_data_packs == null) (pure parameters.pack_count) do
        packs ← deref as_data_packs parameters.p_data_packs
        in_place ← is_in_place packs parameters.pack_count param_position
        branch in_place (pure param_position) (
            find_loop packs parameters.pack_count param_position parameters.pack_count 0
              parameters.pack_count)

  unfoldable pub find_data_pack : DataPackCollection → ℕ → M P DataPack
  unfolding find_data_pack_index
  find_data_pack parameters param_position = do
    tmp_u64 ← find_data_pack_index parameters param_position
    throw_if (leb parameters.pack_count tmp_u64) (
        class_error "hebench/api_bridge/src/benchmark.cpp" "BaseBenchmark" "findDataPack" 99
          (codes "DataPack for component " ++ (to_string param_position ++ codes " not found."))
          ecode_critical_error)
    packs ← deref as_data_packs parameters.p_data_packs
    index packs tmp_u64
