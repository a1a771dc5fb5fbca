-- ===== src/Api/Calls.antt =====
-- The calls of the C API, one constructor for each function of hebench/api_bridge/api.h, and the
-- function of hebench/api_bridge/src/main.cpp that each runs.
use api_bridge.Base.{ℕ}
use api_bridge.Types.{Address, ErrorCode, Handle}
use api_bridge.Memory.{M}
use api_bridge.Backend.{Backend}
use api_bridge.Api.Engines
use api_bridge.Api.Benchmarks
use api_bridge.Api.Names

-- The calls that return an error code.
pub data CodeCall : Type 0 where
  destroy_handle : Handle → CodeCall
  init_engine : Address → Address → ℕ → CodeCall
  subscribe_benchmarks_count : Handle → Address → CodeCall
  subscribe_benchmarks : Handle → Address → ℕ → CodeCall
  get_workload_params_details : Handle → Handle → Address → Address → CodeCall
  describe_benchmark : Handle → Handle → Address → Address → ℕ → CodeCall
  create_benchmark : Handle → Handle → Address → Address → CodeCall
  init_benchmark : Handle → Address → CodeCall
  encode : Handle → Address → Address → CodeCall
  decode : Handle → Handle → Address → CodeCall
  encrypt : Handle → Handle → Address → CodeCall
  decrypt : Handle → Handle → Address → CodeCall
  load : Handle → Address → ℕ → Address → CodeCall
  store : Handle → Handle → Address → ℕ → CodeCall
  operate : Handle → Handle → Address → ℕ → Address → CodeCall

-- The calls that return the size of a text.
pub data SizeCall : Type 0 where
  get_scheme_name : Handle → ℕ → Address → ℕ → SizeCall
  get_scheme_security_name : Handle → ℕ → ℕ → Address → ℕ → SizeCall
  get_benchmark_description_ex : Handle → Handle → Address → Address → ℕ → SizeCall
  get_error_description : Handle → ErrorCode → Address → ℕ → SizeCall
  get_last_error_description : Handle → Address → ℕ → SizeCall

module _ {P : Type 0} (b : Backend P) where
  unfoldable pub run_code : CodeCall → M P ErrorCode
  run_code (destroy_handle h) = Engines.destroy_handle b h
  run_code (init_engine h buffer size) = Engines.init_engine b h buffer size
  run_code (subscribe_benchmarks_count h p) = Engines.subscribe_benchmarks_count b h p
  run_code (subscribe_benchmarks h p count) = Engines.subscribe_benchmarks b h p count
  run_code (get_workload_params_details h d p q) = Engines.get_workload_params_details b h d p q
  run_code (describe_benchmark h d p q count) = Engines.describe_benchmark b h d p q count
  run_code (create_benchmark h d p out) = Engines.create_benchmark b h d p out
  run_code (init_benchmark h p) = Benchmarks.init_benchmark b h p
  run_code (encode h p out) = Benchmarks.encode b h p out
  run_code (decode h data_handle p) = Benchmarks.decode b h data_handle p
  run_code (encrypt h data_handle out) = Benchmarks.encrypt b h data_handle out
  run_code (decrypt h data_handle out) = Benchmarks.decrypt b h data_handle out
  run_code (load h p count out) = Benchmarks.load b h p count out
  run_code (store h data_handle p count) = Benchmarks.store b h data_handle p count
  run_code (operate h data_handle p count out) = Benchmarks.operate b h data_handle p count out

  unfoldable pub run_size : SizeCall → M P ℕ
  run_size (get_scheme_name h s p size) = Names.get_scheme_name b h s p size
  run_size (get_scheme_security_name h s sec p size) =
      Names.get_scheme_security_name b h s sec p size
  run_size (get_benchmark_description_ex h d params p size) =
      Names.get_benchmark_description_ex b h d params p size
  run_size (get_error_description h code p size) = Names.get_error_description b h code p size
  run_size (get_last_error_description h p size) = Names.get_last_error_description b h p size
