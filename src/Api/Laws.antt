-- ===== src/Api/Laws.antt =====
-- What every function of hebench/api_bridge/src/main.cpp promises at the boundary: no exception
-- leaves it, and a failure is left behind as the last error.
use api_bridge.Base.{ℕ, ◌≡◌, refl, ◌≢◌, arith}
use api_bridge.Types.{ErrorCode, ecode_success, ecode_critical_error}
use api_bridge.Memory.{
  Exception, hebench_error, standard, library, unmatched, World, Outcome, returns, throws,
  undefined, M, ◌>>◌, pure,
}
use api_bridge.Backend.{Backend}
use api_bridge.Api.{returns_code, returns_size, on_exception, catch_code, catch_size}
use api_bridge.Api.Calls.{CodeCall, SizeCall, run_code, run_size}
use api_bridge.Api.Engines
use api_bridge.Api.Benchmarks
use api_bridge.Api.Names

module _ {P : Type 0} (b : Backend P) where
  -- Every call is a body between `try` and `catch`.
  run_code_guarded : (c : CodeCall) → (body : M P (Unit {0})) × (run_code b c ≡ returns_code b body)
  unfolding run_code Engines.destroy_handle Engines.init_engine Engines.subscribe_benchmarks_count
      Engines.subscribe_benchmarks Engines.get_workload_params_details Engines.describe_benchmark
      Engines.create_benchmark Benchmarks.init_benchmark Benchmarks.encode Benchmarks.decode
      Benchmarks.encrypt Benchmarks.decrypt Benchmarks.load Benchmarks.store Benchmarks.operate
  run_code_guarded (CodeCall.destroy_handle h) = (_, refl)
  run_code_guarded (CodeCall.init_engine h p size) = (_, refl)
  run_code_guarded (CodeCall.subscribe_benchmarks_count h p) = (_, refl)
  run_code_guarded (CodeCall.subscribe_benchmarks h p count) = (_, refl)
  run_code_guarded (CodeCall.get_workload_params_details h d p q) = (_, refl)
  run_code_guarded (CodeCall.describe_benchmark h d p q count) = (_, refl)
  run_code_guarded (CodeCall.create_benchmark h d p out) = (_, refl)
  run_code_guarded (CodeCall.init_benchmark h p) = (_, refl)
  run_code_guarded (CodeCall.encode h p out) = (_, refl)
  run_code_guarded (CodeCall.decode h d p) = (_, refl)
  run_code_guarded (CodeCall.encrypt h d out) = (_, refl)
  run_code_guarded (CodeCall.decrypt h d out) = (_, refl)
  run_code_guarded (CodeCall.load h p count out) = (_, refl)
  run_code_guarded (CodeCall.store h d p count) = (_, refl)
  run_code_guarded (CodeCall.operate h d p count out) = (_, refl)

  run_size_guarded : (c : SizeCall) → (body : M P ℕ) × (run_size b c ≡ returns_size b body)
  unfolding run_size Names.get_scheme_name Names.get_scheme_security_name
      Names.get_benchmark_description_ex Names.get_error_description
      Names.get_last_error_description
  run_size_guarded (SizeCall.get_scheme_name h s p size) = (_, refl)
  run_size_guarded (SizeCall.get_scheme_security_name h s sec p size) = (_, refl)
  run_size_guarded (SizeCall.get_benchmark_description_ex h d q p size) = (_, refl)
  run_size_guarded (SizeCall.get_error_description h code p size) = (_, refl)
  run_size_guarded (SizeCall.get_last_error_description h p size) = (_, refl)

  catch_code-ne-throws :
      (e : Exception) (f : Exception) (w v : World P) → catch_code b e w ≢ throws f v
  unfolding catch_code
  catch_code-ne-throws (hebench_error text code) f w v h = cc
  catch_code-ne-throws (standard kind text) f w v h = cc
  catch_code-ne-throws (library kind) f w v h = cc
  catch_code-ne-throws unmatched f w v h = cc

  catch_size-ne-throws :
      (e : Exception) (f : Exception) (w v : World P) → catch_size b e w ≢ throws f v
  unfolding catch_size
  catch_size-ne-throws (hebench_error text code) f w v h = cc
  catch_size-ne-throws (standard kind text) f w v h = cc
  catch_size-ne-throws (library kind) f w v h = cc
  catch_size-ne-throws unmatched f w v h = cc

  guarded-ne-throws :
      {A : Type 0} (handler : Exception → M P A)
      → ((e f : Exception) (w v : World P) → handler e w ≢ throws f v)
      → (body : M P A) (f : Exception) (w v : World P) → on_exception body handler w ≢ throws f v
  guarded-ne-throws handler ok body f w v = by_outcome (body w)
    where
      by_outcome : (o : Outcome P _) → on_exception (λ _. o) handler w ≢ throws f v
      by_outcome (returns a u) h = cc
      by_outcome (throws e u) h = ok e f u v h
      by_outcome undefined h = cc

  -- No exception crosses the C boundary, whatever the backend throws: a call that returns an error
  -- code never throws.
  pub run_code-ne-throws :
      (c : CodeCall) (w v : World P) (e : Exception) → run_code b c w ≢ throws e v
  run_code-ne-throws c w v e =
      let (body, g) = run_code_guarded c in
      rw g
        (guarded-ne-throws (catch_code b) catch_code-ne-throws (body >> pure ecode_success) e w v)

  -- Nor does a call that returns a size.
  pub run_size-ne-throws :
      (c : SizeCall) (w v : World P) (e : Exception) → run_size b c w ≢ throws e v
  run_size-ne-throws c w v e =
      let (body, g) = run_size_guarded c in
      rw g (guarded-ne-throws (catch_size b) catch_size-ne-throws body e w v)

  catch_code-reports :
      (e : Exception) (w v : World P) (code : ErrorCode)
      → catch_code b e w ≡ returns code v
      → code ≢ ecode_critical_error
      → v.last_error ≡ code
  unfolding catch_code
  catch_code-reports (hebench_error text c) w v code h other = ground arith
  catch_code-reports (standard kind text) w v code h other = ground arith
  catch_code-reports (library kind) w v code h other = ground arith
  catch_code-reports unmatched w v code h other = ground arith

  returns_code-reports :
      (body : M P (Unit {0})) (w v : World P) (code : ErrorCode)
      → returns_code b body w ≡ returns code v
      → code ≢ ecode_success
      → code ≢ ecode_critical_error
      → v.last_error ≡ code
  returns_code-reports body w v code = by_outcome (body w)
    where
      by_outcome :
          (o : Outcome P (Unit {0}))
          → returns_code b (λ _. o) w ≡ returns code v
          → code ≢ ecode_success
          → code ≢ ecode_critical_error
          → v.last_error ≡ code
      by_outcome (returns a u) h nonzero other = ground arith
      by_outcome (throws e u) h nonzero other = catch_code-reports e u v code h other
      by_outcome undefined h nonzero other = cc

  -- A call that returns an error code other than success and the critical one has left that code as
  -- the last error.
  pub run_code-reports :
      (c : CodeCall) (w v : World P) (code : ErrorCode)
      → run_code b c w ≡ returns code v
      → code ≢ ecode_success
      → code ≢ ecode_critical_error
      → v.last_error ≡ code
  run_code-reports c w v code h =
      let (body, g) = run_code_guarded c in returns_code-reports body w v code (rw g at h)
