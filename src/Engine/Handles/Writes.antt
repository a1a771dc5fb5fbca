-- ===== src/Engine/Handles/Writes.antt =====
-- The writes of the wrapper and of the backends to objects of the caller and of their own, which
-- are no blocks and own none.
use api_bridge.Base.{ℕ, List, refl}
use api_bridge.Types.{Address, Handle, BenchmarkDescriptor, WorkloadParam}
use api_bridge.Memory.{
  Engine, Description, Benchmark, BenchmarkHandle, assign, allocate, free, engine, description,
  benchmark, benchmark_handle, handles, word, chars, bench_descriptor, params, doubles, as_engine,
  as_description, as_benchmark, as_benchmark_handle, as_handles, as_word, as_chars,
  as_bench_descriptor, as_params, as_doubles,
}
use api_bridge.Engine.Handles.Safe.{
  IsSafe, IsPlainKind, assign-IsSafe, free-IsSafe, allocate-IsSafe, safe_rules,
}

module _ {P : Type 0} where
  engine_plain : IsPlainKind {P = P} as_engine
  engine_plain = record { no_block = λ s. refl; no_owner = λ o. refl }

  handles_plain : IsPlainKind {P = P} as_handles
  handles_plain = record { no_block = λ s. refl; no_owner = λ o. refl }

  word_plain : IsPlainKind {P = P} as_word
  word_plain = record { no_block = λ s. refl; no_owner = λ o. refl }

  chars_plain : IsPlainKind {P = P} as_chars
  chars_plain = record { no_block = λ s. refl; no_owner = λ o. refl }

  bench_descriptor_plain : IsPlainKind {P = P} as_bench_descriptor
  bench_descriptor_plain = record { no_block = λ s. refl; no_owner = λ o. refl }

  params_plain : IsPlainKind {P = P} as_params
  params_plain = record { no_block = λ s. refl; no_owner = λ o. refl }

  doubles_plain : IsPlainKind {P = P} as_doubles
  doubles_plain = record { no_block = λ s. refl; no_owner = λ o. refl }

  benchmark_handle_plain : IsPlainKind {P = P} as_benchmark_handle
  benchmark_handle_plain = record { no_block = λ s. refl; no_owner = λ o. refl }

  benchmark_plain : IsPlainKind {P = P} as_benchmark
  benchmark_plain = record { no_block = λ s. refl; no_owner = λ o. refl }

  description_plain : IsPlainKind {P = P} as_description
  description_plain = record { no_block = λ s. refl; no_owner = λ o. refl }

  pub assign_engine : (p : Address) (x : Engine) → IsSafe {P = P} (assign as_engine p (engine x))
  assign_engine p x = assign-IsSafe as_engine p (engine x) engine_plain tt

  pub assign_handles :
      (p : Address) (x : List Handle) → IsSafe {P = P} (assign as_handles p (handles x))
  assign_handles p x = assign-IsSafe as_handles p (handles x) handles_plain tt

  pub assign_word : (p : Address) (x : ℕ) → IsSafe {P = P} (assign as_word p (word x))
  assign_word p x = assign-IsSafe as_word p (word x) word_plain tt

  pub assign_chars : (p : Address) (x : List ℕ) → IsSafe {P = P} (assign as_chars p (chars x))
  assign_chars p x = assign-IsSafe as_chars p (chars x) chars_plain tt

  pub assign_bench_descriptor :
      (p : Address) (x : BenchmarkDescriptor)
      → IsSafe {P = P} (assign as_bench_descriptor p (bench_descriptor x))
  assign_bench_descriptor p x =
      assign-IsSafe as_bench_descriptor p (bench_descriptor x) bench_descriptor_plain tt

  pub assign_params :
      (p : Address) (x : List WorkloadParam) → IsSafe {P = P} (assign as_params p (params x))
  assign_params p x = assign-IsSafe as_params p (params x) params_plain tt

  pub assign_doubles : (p : Address) (x : List ℕ) → IsSafe {P = P} (assign as_doubles p (doubles x))
  assign_doubles p x = assign-IsSafe as_doubles p (doubles x) doubles_plain tt

  pub assign_benchmark_handle :
      (p : Address) (x : BenchmarkHandle)
      → IsSafe {P = P} (assign as_benchmark_handle p (benchmark_handle x))
  assign_benchmark_handle p x =
      assign-IsSafe as_benchmark_handle p (benchmark_handle x) benchmark_handle_plain tt

  pub assign_benchmark :
      (p : Address) (x : Benchmark) → IsSafe {P = P} (assign as_benchmark p (benchmark x))
  assign_benchmark p x = assign-IsSafe as_benchmark p (benchmark x) benchmark_plain tt

  pub free_engine : (p : Address) → IsSafe {P = P} (free as_engine p)
  free_engine p = free-IsSafe as_engine p engine_plain

  pub free_description : (p : Address) → IsSafe {P = P} (free as_description p)
  free_description p = free-IsSafe as_description p description_plain

  pub free_benchmark : (p : Address) → IsSafe {P = P} (free as_benchmark p)
  free_benchmark p = free-IsSafe as_benchmark p benchmark_plain

  pub free_benchmark_handle : (p : Address) → IsSafe {P = P} (free as_benchmark_handle p)
  free_benchmark_handle p = free-IsSafe as_benchmark_handle p benchmark_handle_plain

  pub allocate_engine : (x : Engine) → IsSafe {P = P} (allocate (engine x))
  allocate_engine x = allocate-IsSafe (engine x) tt

  pub allocate_description : (x : Description) → IsSafe {P = P} (allocate (description x))
  allocate_description x = allocate-IsSafe (description x) tt

  pub allocate_benchmark : (x : Benchmark) → IsSafe {P = P} (allocate (benchmark x))
  allocate_benchmark x = allocate-IsSafe (benchmark x) tt

  pub allocate_benchmark_handle :
      (x : BenchmarkHandle) → IsSafe {P = P} (allocate (benchmark_handle x))
  allocate_benchmark_handle x = allocate-IsSafe (benchmark_handle x) tt

pub ruleset write_rules = (
  safe_rules, assign_engine, assign_handles, assign_word, assign_chars, assign_bench_descriptor,
  assign_params, assign_doubles, assign_benchmark_handle, assign_benchmark, free_engine,
  free_description, free_benchmark, free_benchmark_handle, allocate_engine, allocate_description,
  allocate_benchmark, allocate_benchmark_handle,
)
