-- ===== src/Engine/Benchmarks.antt =====
-- The member functions of `BaseEngine` that reach a description by its handle.
use api_bridge.Base.{
  ℕ, zero, suc, ◌+◌, min, not, none, some, List, ◌++◌, ◌||◌, ltb, leb, ◌==◌, if◌then◌else◌, length,
  drop, bit_and, bit_or,
}
use Prim.Native.String.{String}
use api_bridge.Text.{Text, codes, to_string}
use api_bridge.Types.{Address, null, ecode_critical_error, Handle, WorkloadParam}
use api_bridge.Types.Tag
use api_bridge.Memory.{
  M, ◌>>=◌, ◌>>◌, pure, throw_if, when, deref, assign, allocate, free, defined, index, as_engine,
  as_description, as_benchmark, as_benchmark_handle, as_bench_descriptor, as_workload_params,
  as_params, benchmark_handle, bench_descriptor, params,
}
use api_bridge.Backend.{Backend}
use api_bridge.Benchmark.Description.{get_workload_parameter_count}
use api_bridge.Engine.{engine_error, match_benchmark}

module _ {P : Type 0} where
  -- The start of each: the matched description, or the exception of that line.
  abbrev pub matched : Address → Handle → String → ℕ → M P Address
  matched this h_bench_desc function line = do
    e ← deref as_engine this
    let p_bd = match_benchmark e h_bench_desc
    throw_if (p_bd == null) (
        engine_error function line (codes "Invalid benchmark descriptor not matched.")
          ecode_critical_error)
    pure p_bd

  unfoldable pub get_workload_params_count : Address → Handle → M P ℕ
  get_workload_params_count this h_bench_desc = do
    p_bd ← matched this h_bench_desc "getWorkloadParamsCount" 134
    d ← deref as_description p_bd
    pure (get_workload_parameter_count d)

  unfoldable pub get_default_workload_params_count : Address → Handle → M P ℕ
  get_default_workload_params_count this h_bench_desc = do
    p_bd ← matched this h_bench_desc "getDefaultWorkloadParamsCount" 143
    d ← deref as_description p_bd
    pure (length d.default_params)

  -- `std::copy` of a whole vector to the front of an array.
  abbrev pub copy_params : List WorkloadParam → Address → M P (Unit {0})
  copy_params src p_dst = do
    dst ← deref as_params p_dst
    defined (if leb (length src) (length dst) then some tt else none)
    assign as_params p_dst (params (src ++ drop (length src) dst))

  -- The loop that returns the default parameters, at round `i` with `left` rounds left.
  unfoldable pub default_params_loop : List (List WorkloadParam) → Address → ℕ → ℕ → M P (Unit {0})
  default_params_loop default_params p_default_params zero i = pure tt
  default_params_loop default_params p_default_params (suc left) i = do
    array ← deref as_workload_params p_default_params
    room ← index array i
    src ← index default_params i
    throw_if (ltb room.count (length src)) (
        engine_error "describeBenchmark" 173
          (codes "Insufficient space allocated for default set of parameters: " ++ to_string i)
          ecode_critical_error)
    when (not (length src == 0)) (copy_params src room.params)
    default_params_loop default_params p_default_params left (i + 1)

  unfoldable pub describe_benchmark : Address → Handle → Address → Address → ℕ → M P (Unit {0})
  unfolding default_params_loop
  describe_benchmark this h_bench_desc p_bench_desc p_default_params default_count = do
    throw_if (p_bench_desc == null) (
        engine_error "describeBenchmark" 154 (codes "Invalid null parameter: p_bench_desc")
          ecode_critical_error)
    p_bd ← matched this h_bench_desc "describeBenchmark" 159
    d ← deref as_description p_bd
    assign as_bench_descriptor p_bench_desc (bench_descriptor d.descriptor)
    when (not (p_default_params == null)) do
      default_params_loop d.default_params p_default_params
          (min default_count (length d.default_params)) 0

module _ {P : Type 0} (b : Backend P) where
  unfoldable pub get_benchmark_description_ex : Address → Handle → Address → M P Text
  get_benchmark_description_ex this h_bench_desc p_w_params = do
    p_bd ← matched this h_bench_desc "getBenchmarkDescriptionEx" 61
    b.get_benchmark_description p_bd p_w_params

  -- The engine goes to the description by reference, so by address.
  unfoldable pub create_benchmark : Address → Handle → Address → M P Handle
  create_benchmark this h_bench_desc p_params = do
    p_bd ← matched this h_bench_desc "createBenchmark" 185
    p_bench ← b.create_benchmark p_bd this p_params
    p_bh ← allocate (benchmark_handle (record { p_benchmark = null; p_bench_description = null }))
    assign as_benchmark_handle p_bh
        (benchmark_handle (record { p_benchmark = p_bench; p_bench_description = p_bd }))
    bench ← deref as_benchmark p_bench
    pure (record {
      p = p_bh;
      size = b.sizes.benchmark_handle;
      tag = bit_or (bit_or bench.class_tag Tag.base_benchmark) Tag.benchmark_description;
    })

  unfoldable pub destroy_benchmark : Handle → M P (Unit {0})
  destroy_benchmark h_bench = do
    when (not (h_bench.p == null)) do
      throw_if (bit_and h_bench.tag (bit_or Tag.base_benchmark Tag.benchmark_description) == 0) (
          engine_error "destroyBenchmark" 204 (codes "Invalid handle not matching benchmark type.")
            ecode_critical_error)
      bh ← deref as_benchmark_handle h_bench.p
      throw_if (bh.p_benchmark == null || bh.p_bench_description == null)
          (engine_error "destroyBenchmark" 209 (codes "Invalid empty handle.") ecode_critical_error)
      b.destroy_benchmark bh.p_bench_description bh.p_benchmark
      free as_benchmark_handle h_bench.p
