-- ===== src/Api/Engines.antt =====
-- The functions of hebench/api_bridge/src/main.cpp on engines, and the end of every handle.
use api_bridge.Base.{ℕ, not, ◌==◌, if◌then◌else◌, bit_or}
use api_bridge.Types.{Address, null, ErrorCode, Handle}
use api_bridge.Types.Tag
use api_bridge.Memory.{
  M, ◌>>=◌, ◌>>◌, pure, throw, when, deref, assign, as_engine, as_benchmark, as_benchmark_handle,
  as_engine_object, as_word, word,
}
use api_bridge.Backend.{Backend}
use api_bridge.Engine.{
  subscribe_benchmark_count, subscribe_benchmarks as engine_subscribe_benchmarks,
}
use api_bridge.Engine.Benchmarks.{
  get_workload_params_count, get_default_workload_params_count,
  describe_benchmark as engine_describe_benchmark, create_benchmark as engine_create_benchmark,
  destroy_benchmark,
}
use api_bridge.Engine.Handles.{destroy_obj}
use api_bridge.Api.{api_error, check_handle_bits, require, assign_handle, returns_code}

module _ {P : Type 0} (b : Backend P) where
  -- The `switch` on an exact tag.
  unfoldable pub destroy_exact : Handle → M P (Unit {0})
  destroy_exact h =
      if h.tag == Tag.base_engine
      then b.destroy_engine h.p
      else if h.tag == Tag.benchmark_description
      then pure tt
      else throw (api_error "destroyHandle" 64 "Invalid tag in handle.")

  unfoldable pub destroy_body : Handle → M P (Unit {0})
  unfolding destroy_exact
  destroy_body h = when (not (h.p == null)) (
      if check_handle_bits h (bit_or Tag.base_benchmark Tag.benchmark_description)
      then (do
        bh ← deref as_benchmark_handle h.p
        bench ← deref as_benchmark bh.p_benchmark
        destroy_benchmark b h)
      else if check_handle_bits h Tag.engine_object
      then (do deref as_engine_object h.p; destroy_obj h.p)
      else destroy_exact h)

  unfoldable pub destroy_handle : Handle → M P ErrorCode
  unfolding destroy_body
  destroy_handle h = returns_code b (destroy_body h)

  unfoldable pub init_engine : Address → Address → ℕ → M P ErrorCode
  init_engine h_engine p_buffer size = returns_code b do
    require (not (h_engine == null)) "initEngine" 96 "Invalid null handle 'h_engine'."
    p_engine ← b.create_engine p_buffer size
    e ← deref as_engine p_engine
    assign_handle h_engine (record { p = p_engine; size = b.sizes.base_engine; tag = e.class_tag })

  unfoldable pub subscribe_benchmarks_count : Handle → Address → M P ErrorCode
  subscribe_benchmarks_count h_engine p_count = returns_code b do
    require (check_handle_bits h_engine Tag.base_engine) "subscribeBenchmarksCount" 129
        "Invalid handle: h_engine"
    require (not (p_count == null)) "subscribeBenchmarksCount" 132 "Invalid null parameter: p_count"
    e ← deref as_engine h_engine.p
    assign as_word p_count (word (subscribe_benchmark_count e))

  unfoldable pub subscribe_benchmarks : Handle → Address → ℕ → M P ErrorCode
  subscribe_benchmarks h_engine p_h_bench_descs count = returns_code b do
    require (check_handle_bits h_engine Tag.base_engine) "subscribeBenchmarks" 163
        "Invalid handle: h_engine"
    require (not (p_h_bench_descs == null)) "subscribeBenchmarks" 166
        "Invalid null parameter: p_bench_descs"
    engine_subscribe_benchmarks b.sizes h_engine.p p_h_bench_descs count

  unfoldable pub get_workload_params_details : Handle → Handle → Address → Address → M P ErrorCode
  get_workload_params_details h_engine h_bench_desc p_param_count p_default_count =
      returns_code b do
        require (check_handle_bits h_engine Tag.base_engine) "getWorkloadParamsDetails" 200
            "Invalid handle: h_engine"
        require (not (p_param_count == null)) "getWorkloadParamsDetails" 203
            "Invalid null parameter: p_param_count"
        require (not (p_default_count == null)) "getWorkloadParamsDetails" 206
            "Invalid null parameter: p_default_count"
        param_count ← get_workload_params_count h_engine.p h_bench_desc
        assign as_word p_param_count (word param_count)
        default_count ← get_default_workload_params_count h_engine.p h_bench_desc
        assign as_word p_default_count (word default_count)

  unfoldable pub describe_benchmark : Handle → Handle → Address → Address → ℕ → M P ErrorCode
  describe_benchmark h_engine h_bench_desc p_bench_desc p_default_params default_count =
      returns_code b do
        require (check_handle_bits h_engine Tag.base_engine) "describeBenchmark" 242
            "Invalid handle: h_engine"
        require (not (p_bench_desc == null)) "describeBenchmark" 245
            "Invalid null parameter: p_bench_desc"
        engine_describe_benchmark h_engine.p h_bench_desc p_bench_desc p_default_params
            default_count

  unfoldable pub create_benchmark : Handle → Handle → Address → Address → M P ErrorCode
  create_benchmark h_engine h_bench_desc p_params h_benchmark = returns_code b do
    require (check_handle_bits h_engine Tag.base_engine) "createBenchmark" 279
        "Invalid handle: h_engine"
    require (not (h_benchmark == null)) "createBenchmark" 282 "Invalid null handle: h_benchmark"
    h ← engine_create_benchmark b h_engine.p h_bench_desc p_params
    assign_handle h_benchmark h
