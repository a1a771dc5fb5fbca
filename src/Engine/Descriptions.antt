-- ===== src/Engine/Descriptions.antt =====
-- Asking an engine about a benchmark by the handle that subscription gave out, of
-- hebench/api_bridge/src/engine.cpp.
use api_bridge.Base.{ℕ, ◌≤◌, ◌≡◌, ◌≢◌, ◌⊎◌, arith, some, length, get_elem?, bit_and}
use api_bridge.Types.{Address, BenchmarkDescriptor, Handle, ecode_critical_error}
use api_bridge.Types.Tag
use api_bridge.Memory.{
  Engine, Description, World, Fails, returns, lookup, insert, engine, description, bench_descriptor,
}
use api_bridge.Backend.{Sizes}
use api_bridge.Engine.{match_benchmark, description_handle}
use api_bridge.Engine.Benchmarks.{
  get_workload_params_count, get_default_workload_params_count, describe_benchmark,
}
use api_bridge.Engine.Subscription.{match_benchmark-description_handle}
use api_bridge.Benchmark.Description.{front_size, get_workload_parameter_count}

match_benchmark-unmatched :
    (e : Engine) (h : Handle)
    → (length e.descriptors ≤ h.p) ⊎ (bit_and h.tag Tag.benchmark_description ≡ 0)
    → match_benchmark e h ≡ 0
unfolding match_benchmark
match_benchmark-unmatched e h bad = ground arith

module _ {P : Type 0} where
  -- The handle that subscription gives out for a description that is alive answers with that
  -- description: the size of its first default set and the number of its default sets, and its
  -- descriptor, which goes where the caller asks, and nothing else changes if no default
  -- parameters are asked for.
  pub describe_benchmark-description_handle :
      (sizes : Sizes) (this p : Address) (e : Engine) (i p_bd count : ℕ) (d : Description)
      (old : BenchmarkDescriptor) (w : World P)
      → lookup this w.heap ≡ some (engine e)
      → get_elem? e.descriptors i ≡ some p_bd
      → p_bd ≢ 0
      → lookup p_bd w.heap ≡ some (description d)
      → bit_and d.class_tag Tag.benchmark_description ≢ 0
      → p ≢ 0
      → lookup p w.heap ≡ some (bench_descriptor old)
      → (get_workload_params_count this (description_handle sizes i d.class_tag) w
          ≡ returns (front_size d.default_params) w)
        × (get_default_workload_params_count this (description_handle sizes i d.class_tag) w
            ≡ returns (length d.default_params) w)
        × (describe_benchmark this (description_handle sizes i d.class_tag) p 0 count w
            ≡ returns tt (record w { heap = insert p (bench_descriptor d.descriptor) w.heap }))
  unfolding get_workload_params_count get_default_workload_params_count describe_benchmark
      get_workload_parameter_count
  describe_benchmark-description_handle sizes this p e i p_bd count d old w is_engine at alive found
        tagged ne room =
      let matches = match_benchmark-description_handle e sizes i d.class_tag p_bd at tagged in
      (
        ground (arith, is_engine, matches, found),
        ground (arith, is_engine, matches, found),
        ground (arith, is_engine, matches, found, room),
      )

  -- A handle behind the last description, or without the tag of descriptions, is refused by each of the
  -- three questions about a benchmark with the critical error, and nothing changes.
  pub describe_benchmark-unmatched :
      (this p q : Address) (e : Engine) (h : Handle) (count : ℕ) (w : World P)
      → lookup this w.heap ≡ some (engine e)
      → (length e.descriptors ≤ h.p) ⊎ (bit_and h.tag Tag.benchmark_description ≡ 0)
      → Fails ecode_critical_error w (get_workload_params_count this h w)
        × Fails ecode_critical_error w (get_default_workload_params_count this h w)
        × Fails ecode_critical_error w (describe_benchmark this h p q count w)
  unfolding get_workload_params_count get_default_workload_params_count describe_benchmark
  describe_benchmark-unmatched this p q e h count w is_engine bad =
      let unmatched = match_benchmark-unmatched e h bad in
      (
        ground (arith, is_engine, unmatched),
        ground (arith, is_engine, unmatched),
        ground (arith, is_engine, unmatched),
      )
