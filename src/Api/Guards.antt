-- ===== src/Api/Guards.antt =====
-- The guards of the functions of hebench/api_bridge/src/main.cpp: what each refuses before it
-- touches anything.
use api_bridge.Base.{ℕ, ◌<◌, ◌≡◌, ◌≢◌, arith, some, ◌⊎◌, bit_and, bit_or}
use api_bridge.Types.{ecode_critical_error, Handle, DataPackCollection}
use api_bridge.Types.Tag
use api_bridge.Memory.{World, Outcome, returns, throws, undefined, lookup, pack_collection}
use api_bridge.Backend.{Backend}
use api_bridge.Api.{check_handle_bits, catch_code, catch_size}
use api_bridge.Api.Calls.{CodeCall, SizeCall, run_code, run_size}
use api_bridge.Api.Engines
use api_bridge.Api.Benchmarks
use api_bridge.Api.Names

module _ {P : Type 0} where
  -- A returned number with the critical error left behind, and the memory as it was.
  abbrev pub Reports : ℕ → World P → Outcome P ℕ → Type 0
  Reports n w (returns m v) =
      (m ≡ n)
      × (v.last_error ≡ ecode_critical_error)
      × (v.heap ≡ w.heap)
      × (v.next ≡ w.next)
      × (v.map_error_desc ≡ w.map_error_desc)
  Reports n w (throws e v) = ⊥
  Reports n w undefined = ⊥

-- A handle that is null or lacks the tag of engines.
abbrev pub NotEngine : Handle → Type 0
NotEngine h = (h.p ≡ 0) ⊎ (bit_and h.tag Tag.base_engine ≢ Tag.base_engine)

-- The bits of a benchmark's handle.
abbrev pub benchmark_tags : ℕ
benchmark_tags = bit_or Tag.base_benchmark Tag.benchmark_description

-- A handle that is not empty, with the tag of no kind.
abbrev pub OfNoKind : Handle → Type 0
OfNoKind h =
    (h.p ≢ 0)
    × (bit_and h.tag benchmark_tags ≢ benchmark_tags)
    × (bit_and h.tag Tag.engine_object ≢ Tag.engine_object)
    × (h.tag ≢ Tag.base_engine)
    × (h.tag ≢ Tag.benchmark_description)

-- Arguments that a call rules out: a handle of no kind for `destroyHandle`, which accepts an empty
-- one; a handle that is not an engine's; an empty handle; a null pointer, that of announced packs
-- included, which `encode` reads behind its argument; or a count of 0 for `load`.
abbrev pub BadArguments : {P : Type 0} → CodeCall → World P → Type 0
BadArguments (CodeCall.destroy_handle h) w = OfNoKind h
BadArguments (CodeCall.init_engine h p size) w = h ≡ 0
BadArguments (CodeCall.subscribe_benchmarks_count h p) w = NotEngine h ⊎ (p ≡ 0)
BadArguments (CodeCall.subscribe_benchmarks h p count) w = NotEngine h ⊎ (p ≡ 0)
BadArguments (CodeCall.get_workload_params_details h d p q) w = NotEngine h ⊎ ((p ≡ 0) ⊎ (q ≡ 0))
BadArguments (CodeCall.describe_benchmark h d p q count) w = NotEngine h ⊎ (p ≡ 0)
BadArguments (CodeCall.create_benchmark h d p out) w = NotEngine h ⊎ (out ≡ 0)
BadArguments (CodeCall.init_benchmark h p) w = (h.p ≡ 0) ⊎ (p ≡ 0)
BadArguments (CodeCall.encode h p out) w =
    (h.p ≡ 0)
    ⊎ ((p ≡ 0)
        ⊎ ((c : DataPackCollection) × (lookup p w.heap ≡ some (pack_collection c))
            × (((0 < c.pack_count) × (c.p_data_packs ≡ 0)) ⊎ (out ≡ 0))))
BadArguments (CodeCall.decode h d p) w = (h.p ≡ 0) ⊎ ((d.p ≡ 0) ⊎ (p ≡ 0))
BadArguments (CodeCall.encrypt h d out) w = (h.p ≡ 0) ⊎ ((d.p ≡ 0) ⊎ (out ≡ 0))
BadArguments (CodeCall.decrypt h d out) w = (h.p ≡ 0) ⊎ ((d.p ≡ 0) ⊎ (out ≡ 0))
BadArguments (CodeCall.load h p count out) w = (h.p ≡ 0) ⊎ ((p ≡ 0) ⊎ ((count ≡ 0) ⊎ (out ≡ 0)))
BadArguments (CodeCall.store h d p count) w = (h.p ≡ 0) ⊎ ((d.p ≡ 0) ⊎ (p ≡ 0))
BadArguments (CodeCall.operate h d p count out) w = (h.p ≡ 0) ⊎ ((d.p ≡ 0) ⊎ ((p ≡ 0) ⊎ (out ≡ 0)))

-- The size calls that need an engine, with a handle that is none.
abbrev pub BadEngine : SizeCall → Type 0
BadEngine (SizeCall.get_scheme_name h s p size) = NotEngine h
BadEngine (SizeCall.get_scheme_security_name h s sec p size) = NotEngine h
BadEngine (SizeCall.get_benchmark_description_ex h d q p size) = NotEngine h
BadEngine (SizeCall.get_error_description h code p size) = ⊥
BadEngine (SizeCall.get_last_error_description h p size) = ⊥

module _ {P : Type 0} (b : Backend P) where
  -- Each call that returns an error code refuses the arguments that its guards rule out: a handle of
  -- no kind for `destroyHandle`, a handle that is not an engine's, an empty handle for a call on a
  -- benchmark, a null pointer where the guards test it, announced packs at a null pointer and, where
  -- the packs can be read, a null cell for `encode`, or an empty array for `load`. It returns the
  -- critical error, leaves it as the last error, and touches neither memory nor the table of error
  -- codes.
  pub run_code-refuses :
      (c : CodeCall) (w : World P)
      → BadArguments c w
      → Reports ecode_critical_error w (run_code b c w)
  unfolding run_code Engines.destroy_handle Engines.init_engine Engines.subscribe_benchmarks_count
      Engines.subscribe_benchmarks Engines.get_workload_params_details Engines.describe_benchmark
      Engines.create_benchmark Benchmarks.init_benchmark Benchmarks.encode Benchmarks.decode
      Benchmarks.encrypt Benchmarks.decrypt Benchmarks.load Benchmarks.store Benchmarks.operate
      check_handle_bits catch_code
  run_code-refuses (CodeCall.destroy_handle h) w bad = ground arith
  run_code-refuses (CodeCall.init_engine h p size) w bad = ground arith
  run_code-refuses (CodeCall.subscribe_benchmarks_count h p) w bad = ground arith
  run_code-refuses (CodeCall.subscribe_benchmarks h p count) w bad = ground arith
  run_code-refuses (CodeCall.get_workload_params_details h d p q) w bad = ground arith
  run_code-refuses (CodeCall.describe_benchmark h d p q count) w bad = ground arith
  run_code-refuses (CodeCall.create_benchmark h d p out) w bad = ground arith
  run_code-refuses (CodeCall.init_benchmark h p) w bad = ground arith
  run_code-refuses (CodeCall.encode h p out) w bad = ground arith
  run_code-refuses (CodeCall.decode h d p) w bad = ground arith
  run_code-refuses (CodeCall.encrypt h d out) w bad = ground arith
  run_code-refuses (CodeCall.decrypt h d out) w bad = ground arith
  run_code-refuses (CodeCall.load h p count out) w bad = ground arith
  run_code-refuses (CodeCall.store h d p count) w bad = ground arith
  run_code-refuses (CodeCall.operate h d p count out) w bad = ground arith

  -- A call that returns a size, of an engine whose handle is null or lacks the tag of engines,
  -- returns the number of the critical error, not 0, leaves that error as the last, and touches
  -- neither memory nor the table of error codes.
  pub run_size-refuses :
      (c : SizeCall) (w : World P) → BadEngine c → Reports ecode_critical_error w (run_size b c w)
  unfolding run_size Names.get_scheme_name Names.get_scheme_security_name
      Names.get_benchmark_description_ex check_handle_bits catch_size
  run_size-refuses (SizeCall.get_scheme_name h s p size) w bad = ground arith
  run_size-refuses (SizeCall.get_scheme_security_name h s sec p size) w bad = ground arith
  run_size-refuses (SizeCall.get_benchmark_description_ex h d q p size) w bad = ground arith
  run_size-refuses (SizeCall.get_error_description h code p size) w bad = absurd bad
  run_size-refuses (SizeCall.get_last_error_description h p size) w bad = absurd bad
