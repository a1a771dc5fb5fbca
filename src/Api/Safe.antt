-- ===== src/Api/Safe.antt =====
-- What a backend owes to the wrapper for the invariant of reference-counted handles, and that every
-- C function of hebench/api_bridge/src/main.cpp keeps it then.
use api_bridge.Base.{ℕ, Option, none, some}
use api_bridge.Text.{Text}
use api_bridge.Types.{Address, Handle, BenchmarkDescriptor}
use api_bridge.Memory.{
  Exception, hebench_error, standard, library, unmatched, World, Outcome, returns, throws,
  undefined, M,
}
use api_bridge.Backend.{Backend}
use api_bridge.Engine.Benchmarks as EngineBenchmarks
use api_bridge.Engine.Handles.Safe.{IsSafe, EndsSound, safe_rules, then-IsSafe, pure-IsSafe}
use api_bridge.Engine.Handles.Writes.{write_rules}
use api_bridge.Engine.Handles.Invariant.{destroy_obj-IsSafe}
use api_bridge.Engine.Invariant.{
  set_last_error_text-IsSafe, get_error_desc-IsSafe, copy_string-IsSafe,
  subscribe_benchmarks-IsSafe, get_workload_params_count-IsSafe,
  get_default_workload_params_count-IsSafe, describe_benchmark-IsSafe,
}
use api_bridge.Api.{catch_code, catch_size, on_exception, returns_code, returns_size}
use api_bridge.Api.Calls.{CodeCall, SizeCall, run_code, run_size}
use api_bridge.Api.Engines
use api_bridge.Api.Benchmarks
use api_bridge.Api.Names

module _ {P : Type 0} where
  -- Each function of the backend keeps the invariant, whether it returns or throws.
  pub record IsSafeBackend (b : Backend P) : Type 0 where
    pub create_engine : (p : Address) (size : ℕ) → IsSafe (b.create_engine p size)
    pub destroy_engine : (p : Address) → IsSafe (b.destroy_engine p)
    pub create_benchmark : (p q r : Address) → IsSafe (b.create_benchmark p q r)
    pub destroy_benchmark : (p q : Address) → IsSafe (b.destroy_benchmark p q)
    pub get_benchmark_description : (p q : Address) → IsSafe (b.get_benchmark_description p q)
    pub initialize : (p : Address) (d : BenchmarkDescriptor) → IsSafe (b.initialize p d)
    pub encode : (p q : Address) → IsSafe (b.encode p q)
    pub decode : (p : Address) (h : Handle) (q : Address) → IsSafe (b.decode p h q)
    pub encrypt : (p : Address) (h : Handle) → IsSafe (b.encrypt p h)
    pub decrypt : (p : Address) (h : Handle) → IsSafe (b.decrypt p h)
    pub load : (p q : Address) (count : ℕ) → IsSafe (b.load p q count)
    pub store : (p : Address) (h : Handle) (q : Address) (count : ℕ) → IsSafe (b.store p h q count)
    pub operate :
        (p : Address) (h : Handle) (q : Address) (count : ℕ) → IsSafe (b.operate p h q count)

module _ {P : Type 0} (b : Backend P) (laws : IsSafeBackend b) where
  catch_code-IsSafe : (e : Exception) → IsSafe (catch_code b e)
  unfolding catch_code
  catch_code-IsSafe (hebench_error text code) =
      search (set_last_error_text-IsSafe, safe_rules) depth 6
  catch_code-IsSafe (standard kind text) = search (set_last_error_text-IsSafe, safe_rules) depth 6
  catch_code-IsSafe (library kind) = search (set_last_error_text-IsSafe, safe_rules) depth 6
  catch_code-IsSafe unmatched = search safe_rules depth 6

  catch_size-IsSafe : (e : Exception) → IsSafe (catch_size b e)
  unfolding catch_size
  catch_size-IsSafe (hebench_error text code) =
      search (set_last_error_text-IsSafe, safe_rules) depth 6
  catch_size-IsSafe (standard kind text) = search (set_last_error_text-IsSafe, safe_rules) depth 6
  catch_size-IsSafe (library kind) = search (set_last_error_text-IsSafe, safe_rules) depth 6
  catch_size-IsSafe unmatched = search safe_rules depth 6

  caught :
      {A : Type 0} (o : Outcome P A) (handler : Exception → M P A)
      → EndsSound o
      → ((e : Exception) → IsSafe (handler e))
      → (w : World P) → EndsSound (on_exception (λ _. o) handler w)
  caught (returns a v) handler sound safe w = sound
  caught (throws e v) handler sound safe w = (safe e).ends v sound
  caught undefined handler sound safe w = tt

  returns_code-IsSafe : (body : M P (Unit {0})) → IsSafe body → IsSafe (returns_code b body)
  returns_code-IsSafe body safe = record {
    ends = λ w v.
        caught _ (catch_code b) ((then-IsSafe safe pure-IsSafe).ends w v) catch_code-IsSafe w;
  }

  returns_size-IsSafe : (body : M P ℕ) → IsSafe body → IsSafe (returns_size b body)
  returns_size-IsSafe body safe = record {
    ends = λ w v. caught (body w) (catch_size b) (safe.ends w v) catch_size-IsSafe w;
  }

  engine_create_benchmark-IsSafe :
      (this : Address) (h : Handle) (p : Address)
      → IsSafe (EngineBenchmarks.create_benchmark b this h p)
  unfolding EngineBenchmarks.create_benchmark
  engine_create_benchmark-IsSafe this h p = search (laws.create_benchmark, write_rules) depth 16

  engine_destroy_benchmark-IsSafe : (h : Handle) → IsSafe (EngineBenchmarks.destroy_benchmark b h)
  unfolding EngineBenchmarks.destroy_benchmark
  engine_destroy_benchmark-IsSafe h = search (laws.destroy_benchmark, write_rules) depth 16

  engine_description_ex-IsSafe :
      (this : Address) (h : Handle) (p : Address)
      → IsSafe (EngineBenchmarks.get_benchmark_description_ex b this h p)
  unfolding EngineBenchmarks.get_benchmark_description_ex
  engine_description_ex-IsSafe this h p =
      search (laws.get_benchmark_description, safe_rules) depth 16

  destroy_exact-IsSafe : (h : Handle) → IsSafe (Engines.destroy_exact b h)
  unfolding Engines.destroy_exact
  destroy_exact-IsSafe h = search (laws.destroy_engine, safe_rules) depth 8

  destroy_body-IsSafe : (h : Handle) → IsSafe (Engines.destroy_body b h)
  unfolding Engines.destroy_body
  destroy_body-IsSafe h =
      search (destroy_exact-IsSafe, engine_destroy_benchmark-IsSafe, destroy_obj-IsSafe, safe_rules)
        depth 12

  -- If the functions of the backend keep the invariant of reference-counted handles, then so does
  -- every call that returns an error code, whatever its arguments.
  pub run_code-IsSafe : (c : CodeCall) → IsSafe (run_code b c)
  unfolding run_code Engines.destroy_handle Engines.init_engine Engines.subscribe_benchmarks_count
      Engines.subscribe_benchmarks Engines.get_workload_params_details Engines.describe_benchmark
      Engines.create_benchmark Benchmarks.init_benchmark Benchmarks.encode Benchmarks.decode
      Benchmarks.encrypt Benchmarks.decrypt Benchmarks.load Benchmarks.store Benchmarks.operate
  run_code-IsSafe (CodeCall.destroy_handle h) = returns_code-IsSafe _ (destroy_body-IsSafe h)
  run_code-IsSafe (CodeCall.init_engine h p size) =
      returns_code-IsSafe _ (search (laws.create_engine, write_rules) depth 16)
  run_code-IsSafe (CodeCall.subscribe_benchmarks_count h p) =
      returns_code-IsSafe _ (search write_rules depth 16)
  run_code-IsSafe (CodeCall.subscribe_benchmarks h p count) =
      returns_code-IsSafe _ (search (subscribe_benchmarks-IsSafe, safe_rules) depth 16)
  run_code-IsSafe (CodeCall.get_workload_params_details h d p q) = returns_code-IsSafe _ (
      search
        (get_workload_params_count-IsSafe, get_default_workload_params_count-IsSafe, write_rules)
        depth 20)
  run_code-IsSafe (CodeCall.describe_benchmark h d p q count) =
      returns_code-IsSafe _ (search (describe_benchmark-IsSafe, safe_rules) depth 16)
  run_code-IsSafe (CodeCall.create_benchmark h d p out) =
      returns_code-IsSafe _ (search (engine_create_benchmark-IsSafe, write_rules) depth 16)
  run_code-IsSafe (CodeCall.init_benchmark h p) =
      returns_code-IsSafe _ (search (laws.initialize, safe_rules) depth 16)
  run_code-IsSafe (CodeCall.encode h p out) =
      returns_code-IsSafe _ (search (laws.encode, write_rules) depth 20)
  run_code-IsSafe (CodeCall.decode h data_handle p) =
      returns_code-IsSafe _ (search (laws.decode, safe_rules) depth 16)
  run_code-IsSafe (CodeCall.encrypt h data_handle out) =
      returns_code-IsSafe _ (search (laws.encrypt, write_rules) depth 20)
  run_code-IsSafe (CodeCall.decrypt h data_handle out) =
      returns_code-IsSafe _ (search (laws.decrypt, write_rules) depth 20)
  run_code-IsSafe (CodeCall.load h p count out) =
      returns_code-IsSafe _ (search (laws.load, write_rules) depth 20)
  run_code-IsSafe (CodeCall.store h data_handle p count) =
      returns_code-IsSafe _ (search (laws.store, safe_rules) depth 16)
  run_code-IsSafe (CodeCall.operate h data_handle p count out) =
      returns_code-IsSafe _ (search (laws.operate, write_rules) depth 20)

  found-IsSafe : (o : Option Text) (missing : Text) → IsSafe {P = P} (Names.found o missing)
  found-IsSafe none missing = search safe_rules depth 5
  found-IsSafe (some text) missing = search safe_rules depth 5

  -- So does every call that returns a size.
  pub run_size-IsSafe : (c : SizeCall) → IsSafe (run_size b c)
  unfolding run_size Names.get_scheme_name Names.get_scheme_security_name
      Names.get_benchmark_description_ex Names.get_error_description
      Names.get_last_error_description
  run_size-IsSafe (SizeCall.get_scheme_name h s p size) =
      returns_size-IsSafe _ (search (found-IsSafe, copy_string-IsSafe, safe_rules) depth 16)
  run_size-IsSafe (SizeCall.get_scheme_security_name h s sec p size) =
      returns_size-IsSafe _ (search (found-IsSafe, copy_string-IsSafe, safe_rules) depth 16)
  run_size-IsSafe (SizeCall.get_benchmark_description_ex h d q p size) =
      returns_size-IsSafe _
        (search (engine_description_ex-IsSafe, copy_string-IsSafe, safe_rules) depth 16)
  run_size-IsSafe (SizeCall.get_error_description h code p size) =
      returns_size-IsSafe _
        (search (get_error_desc-IsSafe, copy_string-IsSafe, safe_rules) depth 16)
  run_size-IsSafe (SizeCall.get_last_error_description h p size) =
      returns_size-IsSafe _ (search (copy_string-IsSafe, safe_rules) depth 16)
