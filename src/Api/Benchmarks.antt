-- ===== src/Api/Benchmarks.antt =====
-- The functions of hebench/api_bridge/src/main.cpp on a benchmark. Each takes the benchmark from
-- its handle and calls the virtual function of the same name.
use api_bridge.Base.{ℕ, Bool, false, not, ◌&&◌, ◌==◌, leb, ltb}
use api_bridge.Types.{Address, null, ErrorCode, Handle}
use api_bridge.Memory.{
  branch, M, ◌>>=◌, ◌>>◌, pure, deref, as_benchmark_handle, as_bench_descriptor, as_pack_collection,
}
use api_bridge.Backend.{Backend}
use api_bridge.Api.{require, assign_handle, returns_code}

module _ {P : Type 0} (b : Backend P) where
  unfoldable pub init_benchmark : Handle → Address → M P ErrorCode
  init_benchmark h_benchmark p_concrete_desc = returns_code b do
    require (not (h_benchmark.p == null)) "initBenchmark" 314 "Invalid empty handle 'h_benchmark'"
    require (not (p_concrete_desc == null)) "initBenchmark" 317
        "Invalid null benchmark descriptor 'p_concrete_desc'"
    bh ← deref as_benchmark_handle h_benchmark.p
    desc ← deref as_bench_descriptor p_concrete_desc
    b.initialize bh.p_benchmark desc

  -- The test of `p_parameters`, which reads it unless it is null.
  abbrev pub has_packs : Address → M P Bool
  has_packs p_parameters = branch (p_parameters == null) (pure false) do
    parameters ← deref as_pack_collection p_parameters
    pure (not (ltb 0 parameters.pack_count && (parameters.p_data_packs == null)))

  unfoldable pub encode : Handle → Address → Address → M P ErrorCode
  encode h_benchmark p_parameters h_plaintext = returns_code b do
    require (not (h_benchmark.p == null)) "encode" 348 "Invalid empty handle 'h_benchmark'"
    packed ← has_packs p_parameters
    require packed "encode" 351 "Invalid null packed data 'p_parameters'"
    require (not (h_plaintext == null)) "encode" 354 "Invalid null handle 'h_plaintext'"
    bh ← deref as_benchmark_handle h_benchmark.p
    h ← b.encode bh.p_benchmark p_parameters
    assign_handle h_plaintext h

  unfoldable pub decode : Handle → Handle → Address → M P ErrorCode
  decode h_benchmark h_plaintext p_native = returns_code b do
    require (not (h_benchmark.p == null)) "decode" 385 "Invalid empty handle 'h_benchmark'"
    require (not (h_plaintext.p == null)) "decode" 388 "Invalid empty handle 'h_plaintext'"
    require (not (p_native == null)) "decode" 391 "Invalid null argument 'p_native'"
    bh ← deref as_benchmark_handle h_benchmark.p
    b.decode bh.p_benchmark h_plaintext p_native

  unfoldable pub encrypt : Handle → Handle → Address → M P ErrorCode
  encrypt h_benchmark h_plaintext h_ciphertext = returns_code b do
    require (not (h_benchmark.p == null)) "encrypt" 422 "Invalid empty handle 'h_benchmark'"
    require (not (h_plaintext.p == null)) "encrypt" 425 "Invalid empty handle 'h_plaintext'"
    require (not (h_ciphertext == null)) "encrypt" 428 "Invalid null handle 'h_ciphertext'"
    bh ← deref as_benchmark_handle h_benchmark.p
    h ← b.encrypt bh.p_benchmark h_plaintext
    assign_handle h_ciphertext h

  unfoldable pub decrypt : Handle → Handle → Address → M P ErrorCode
  decrypt h_benchmark h_ciphertext h_plaintext = returns_code b do
    require (not (h_benchmark.p == null)) "decrypt" 459 "Invalid empty handle 'h_benchmark'"
    require (not (h_ciphertext.p == null)) "decrypt" 462 "Invalid empty handle 'h_ciphertext'"
    require (not (h_plaintext == null)) "decrypt" 465 "Invalid null handle 'h_plaintext'"
    bh ← deref as_benchmark_handle h_benchmark.p
    h ← b.decrypt bh.p_benchmark h_ciphertext
    assign_handle h_plaintext h

  unfoldable pub load : Handle → Address → ℕ → Address → M P ErrorCode
  load h_benchmark h_local_packed_params local_count h_remote_packed_params = returns_code b do
    require (not (h_benchmark.p == null)) "load" 498 "Invalid empty handle 'h_benchmark'"
    require (not (h_local_packed_params == null)) "load" 501 "Invalid null array 'h_locals'"
    require (not (leb local_count 0)) "load" 504
        "Invalid empty array 'h_locals': 'local_count' must not be zero."
    require (not (h_remote_packed_params == null)) "load" 507 "Invalid null handle 'h_remote'"
    bh ← deref as_benchmark_handle h_benchmark.p
    h ← b.load bh.p_benchmark h_local_packed_params local_count
    assign_handle h_remote_packed_params h

  unfoldable pub store : Handle → Handle → Address → ℕ → M P ErrorCode
  store h_benchmark h_remote h_local_packed_params local_count = returns_code b do
    require (not (h_benchmark.p == null)) "store" 540 "Invalid empty handle 'h_benchmark'"
    require (not (h_remote.p == null)) "store" 543 "Invalid empty handle 'h_remote'"
    require (not (h_local_packed_params == null)) "store" 546
        "Invalid null argument 'h_local_packed_params'"
    bh ← deref as_benchmark_handle h_benchmark.p
    b.store bh.p_benchmark h_remote h_local_packed_params local_count

  unfoldable pub operate : Handle → Handle → Address → ℕ → Address → M P ErrorCode
  operate h_benchmark h_remote_packed_params p_param_indexers indexers_count h_remote_output =
      returns_code b do
        require (not (h_benchmark.p == null)) "operate" 581 "Invalid empty handle 'h_benchmark'"
        require (not (h_remote_packed_params.p == null)) "operate" 584
            "Invalid empty handle 'h_remote_packed_params'"
        require (not (p_param_indexers == null)) "operate" 587
            "Invalid null argument 'p_param_indexers'"
        require (not (h_remote_output == null)) "operate" 590
            "Invalid null argument 'h_remote_output'"
        bh ← deref as_benchmark_handle h_benchmark.p
        h ← b.operate bh.p_benchmark h_remote_packed_params p_param_indexers indexers_count
        assign_handle h_remote_output h
