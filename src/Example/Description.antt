-- ===== src/Example/Description.antt =====
-- `ExampleBenchmarkDescription` and the construction of `ExampleBenchmark`, of
-- api_bridge_example_backend/src/ex_benchmark.cpp.
use api_bridge.Base.{not, ◌++◌, ltb, leb, ◌==◌, if◌then◌else◌, length, take, none, some, List}
use api_bridge.Text.{Text, codes, to_string}
use api_bridge.Types.{
  Address, null, ecode_invalid_args, ecode_critical_error, WorkloadParam, WorkloadParams,
  BenchmarkDescriptor,
}
use api_bridge.Memory.{
  Benchmark, library, bad_cast, M, ◌>>=◌, ◌>>◌, pure, throw_if, when, deref, allocate, free,
  defined, index, as_engine, as_description, as_benchmark, as_params, as_workload_params, benchmark,
}
use api_bridge.Benchmark.{base_benchmark_with}
use api_bridge.Example.{example_type, example_error, lift}
use api_bridge.Example.Workload.{num_workload_params, benchmark_class_tag, check_workload}

module _ {P : Type 0} where
  -- The vector that `Common(w_params)` copies from a pointer and a count.
  abbrev pub params_of : WorkloadParams → M P (List WorkloadParam)
  params_of bench_params = do
    array ← deref as_params bench_params.params
    defined (
        if leb bench_params.count (length array)
        then some (take bench_params.count array)
        else none)

  -- The constructor of `ExampleBenchmark`.
  unfoldable pub example_benchmark : Address → BenchmarkDescriptor → WorkloadParams → M P Benchmark
  unfolding base_benchmark_with
  example_benchmark this_engine bench_desc bench_params = do
    base ← base_benchmark_with example_type benchmark_class_tag this_engine bench_desc bench_params
    throw_if (ltb bench_params.count num_workload_params) (
        example_error "ExampleBenchmark" "ExampleBenchmark" 98
          (codes "Invalid workload parameters. This workload requires "
            ++ (to_string num_workload_params ++ codes " parameters."))
          ecode_invalid_args)
    w_params ← params_of bench_params
    lift (check_workload w_params)
    pure base

  unfoldable pub create_benchmark : Address → Address → Address → M P Address
  create_benchmark this this_engine p_params = do
    throw_if (p_params == null) (
        example_error "ExampleBenchmarkDescription" "createBenchmark" 55
          (codes "Invalid empty workload parameters. This workload requires flexible parameters.")
          ecode_critical_error)
    e ← deref as_engine this_engine
    throw_if (not (e.dynamic_type == example_type)) (library bad_cast)
    d ← deref as_description this
    array ← deref as_workload_params p_params
    bench_params ← index array 0
    bench ← example_benchmark this_engine d.descriptor bench_params
    allocate (benchmark bench)

  -- A `dynamic_cast` that fails gives null, whose `delete` does nothing.
  unfoldable pub destroy_benchmark : Address → Address → M P (Unit {0})
  destroy_benchmark this p_bench = do
    when (not (p_bench == null)) do
      bench ← deref as_benchmark p_bench
      when (bench.dynamic_type == example_type) (free as_benchmark p_bench)

  unfoldable pub get_benchmark_description : Address → Address → M P Text
  get_benchmark_description this p_w_params = pure (codes ", Example backend implementation.")
