-- ===== src/Loader.antt =====
-- The loader of a backend's shared library, dynamic_lib_load/src/dynamic_lib_load.cpp: a table of
-- function pointers that is filled by name, and the functions that call through it. The C functions
-- of dynamic_lib_load/src/main.cpp forward to these. The dynamic linker is a parameter.
pub mod Symbols
pub mod Table
pub mod Unload
use Symbols.{Symbol, position, symbol_name, symbols}
use api_bridge.Base.{ℕ, Option, none, some, List, [], ◌∷◌, Bool, true, false, if◌then◌else◌}
use api_bridge.Text.{Text}
use api_bridge.Memory.{Exception, standard, runtime_error, lookup, insert}
use api_bridge.Api.Calls.{CodeCall, SizeCall}

-- `dlopen`, `dlsym` and `dlerror`; `F` is a function of the library, `Lib` what `dlopen` returns.
pub record Linker (Lib F : Type 0) : Type 0 where
  pub dlopen : Text → Option Lib
  pub dlsym : Lib → Text → Option F
  pub dlerror : Text

-- The static members of `DynamicLibLoad`. A function that is not in the table is a null pointer;
-- `closed` lists the libraries that were closed.
pub record Loader (Lib F : Type 0) : Type 0 where
  pub functions : List (ℕ × F)
  pub lib : Option Lib
  pub closed : List Lib

pub data Loading (Lib F : Type 0) : Type 0 where
  loaded : Loader Lib F → Loading Lib F
  failed : Exception → Loader Lib F → Loading Lib F

-- What a call through the table does: it calls a function of the library with these arguments, and
-- its value is the caller's, or it is undefined. `C` is the type of calls, which give the arguments.
pub data Target (F C : Type 0) : Type 0 where
  call : F → C → Target F C
  undefined : Target F C

module _ {Lib F : Type 0} (k : Linker Lib F) where
  open k use {dlopen, dlsym, dlerror}

  -- The assignments of `loadLibrary` that are left; `loadSymbol` throws on a missing symbol.
  unfoldable pub load_symbols : Lib → List Symbol → Loader Lib F → Loading Lib F
  load_symbols handle [] l = loaded l
  load_symbols handle (s ∷ rest) l = elim (dlsym handle (symbol_name s)) [
    | none ↦ failed (standard runtime_error dlerror) l
    | some f ↦ load_symbols handle rest (record l { functions = insert (position s) f l.functions })
  ]

  -- `m_lib` is overwritten, whatever it was.
  unfoldable pub load_library : Text → Loader Lib F → Loading Lib F
  unfolding load_symbols
  load_library path l = elim (dlopen path) [
    | none ↦ failed (standard runtime_error dlerror) l
    | some handle ↦ load_symbols handle symbols (record l { lib = some handle })
  ]

module _ {Lib F : Type 0} where
  -- The destructor of `DynamicLib`.
  unfoldable pub close : Lib → Loader Lib F → Loader Lib F
  close handle l = record l { closed = handle ∷ l.closed }

  -- The table stays as it is.
  unfoldable pub unload_library : Loader Lib F → Loader Lib F
  unfolding close
  unload_library l = elim l.lib [ none ↦ l | some handle ↦ record (close handle l) { lib = none } ]

  -- A call of a pointer in the table, with the arguments of a call.
  unfoldable pub via : {C : Type 0} → Symbol → Loader Lib F → C → Target F C
  via s l c = elim (lookup (position s) l.functions) [ none ↦ undefined | some f ↦ call f c ]

  -- The member functions of `DynamicLibLoad` that return an error code.
  unfoldable pub forward_code : CodeCall → Loader Lib F → Target F CodeCall
  unfolding via
  forward_code (CodeCall.destroy_handle h) l =
      via Symbol.destroy_handle l (CodeCall.destroy_handle h)
  forward_code (CodeCall.init_engine h_engine p_buffer size) l =
      via Symbol.init_engine l (CodeCall.init_engine h_engine p_buffer size)
  forward_code (CodeCall.subscribe_benchmarks_count h_engine p_count) l =
      via Symbol.subscribe_benchmarks_count l (CodeCall.subscribe_benchmarks_count h_engine p_count)
  forward_code (CodeCall.subscribe_benchmarks h_engine p_h_bench_descs count) l =
      via Symbol.subscribe_benchmarks l
        (CodeCall.subscribe_benchmarks h_engine p_h_bench_descs count)
  forward_code
        (CodeCall.get_workload_params_details h_engine h_bench_desc p_param_count p_default_count)
        l =
      via Symbol.get_workload_params_details l
        (CodeCall.get_workload_params_details h_engine h_bench_desc p_param_count p_default_count)
  forward_code
        (CodeCall.describe_benchmark h_engine h_bench_desc p_bench_desc p_default_params
          default_count)
        l =
      via Symbol.describe_benchmark l (
        CodeCall.describe_benchmark h_engine h_bench_desc p_bench_desc p_default_params
          default_count)
  forward_code (CodeCall.create_benchmark h_engine h_bench_desc p_params h_benchmark) l =
      via Symbol.create_benchmark l
        (CodeCall.create_benchmark h_engine h_bench_desc p_params h_benchmark)
  forward_code (CodeCall.init_benchmark h_benchmark p_concrete_desc) l =
      via Symbol.init_benchmark l (CodeCall.init_benchmark h_benchmark p_concrete_desc)
  forward_code (CodeCall.encode h_benchmark p_parameters h_plaintext) l =
      via Symbol.encode l (CodeCall.encode h_benchmark p_parameters h_plaintext)
  forward_code (CodeCall.decode h_benchmark h_plaintext p_native) l =
      via Symbol.decode l (CodeCall.decode h_benchmark h_plaintext p_native)
  forward_code (CodeCall.encrypt h_benchmark h_plaintext h_ciphertext) l =
      via Symbol.encrypt l (CodeCall.encrypt h_benchmark h_plaintext h_ciphertext)
  forward_code (CodeCall.decrypt h_benchmark h_ciphertext h_plaintext) l =
      via Symbol.decrypt l (CodeCall.decrypt h_benchmark h_ciphertext h_plaintext)
  forward_code (CodeCall.load h_benchmark h_local_packed_params local_count h_remote) l =
      via Symbol.load l (CodeCall.load h_benchmark h_local_packed_params local_count h_remote)
  forward_code (CodeCall.store h_benchmark h_remote h_local_packed_params local_count) l =
      via Symbol.store l (CodeCall.store h_benchmark h_remote h_local_packed_params local_count)
  forward_code
        (CodeCall.operate h_benchmark h_remote_packed_params p_param_indexers indexers_count
          h_remote_output)
        l =
      via Symbol.operate l (
        CodeCall.operate h_benchmark h_remote_packed_params p_param_indexers indexers_count
          h_remote_output)

  -- Those that return a size.
  unfoldable pub forward_size : SizeCall → Loader Lib F → Target F SizeCall
  unfolding via
  forward_size (SizeCall.get_scheme_name h_engine s p_name size) l =
      via Symbol.get_scheme_name l (SizeCall.get_scheme_name h_engine s p_name size)
  forward_size (SizeCall.get_scheme_security_name h_engine s sec p_name size) l =
      via Symbol.get_scheme_security_name l
        (SizeCall.get_scheme_security_name h_engine s sec p_name size)
  forward_size
        (SizeCall.get_benchmark_description_ex h_engine h_bench_desc p_w_params p_description size)
        l =
      via Symbol.get_benchmark_description_ex l
        (SizeCall.get_benchmark_description_ex h_engine h_bench_desc p_w_params p_description size)
  forward_size (SizeCall.get_error_description h_engine code p_description size) l =
      via Symbol.get_error_description l
        (SizeCall.get_error_description h_engine code p_description size)
  forward_size (SizeCall.get_last_error_description h_engine p_description size) l =
      via Symbol.get_last_error_description l
        (SizeCall.get_last_error_description h_engine p_description size)

  -- The C functions of dynamic_lib_load/src/main.cpp that return an error code.
  unfoldable pub c_code : CodeCall → Loader Lib F → Target F CodeCall
  unfolding forward_code
  c_code (CodeCall.destroy_handle h) = forward_code (CodeCall.destroy_handle h)
  c_code (CodeCall.init_engine h_engine p_buffer size) =
      forward_code (CodeCall.init_engine h_engine p_buffer size)
  c_code (CodeCall.subscribe_benchmarks_count h_engine p_count) =
      forward_code (CodeCall.subscribe_benchmarks_count h_engine p_count)
  c_code (CodeCall.subscribe_benchmarks h_engine p_h_bench_descs count) =
      forward_code (CodeCall.subscribe_benchmarks h_engine p_h_bench_descs count)
  c_code
        (CodeCall.get_workload_params_details h_engine h_bench_desc p_param_count p_default_count) =
      forward_code
        (CodeCall.get_workload_params_details h_engine h_bench_desc p_param_count p_default_count)
  c_code
        (CodeCall.describe_benchmark h_engine h_bench_desc p_bench_desc p_default_params
          default_count) =
      forward_code (
        CodeCall.describe_benchmark h_engine h_bench_desc p_bench_desc p_default_params
          default_count)
  c_code (CodeCall.create_benchmark h_engine h_bench_desc p_params h_benchmark) =
      forward_code (CodeCall.create_benchmark h_engine h_bench_desc p_params h_benchmark)
  c_code (CodeCall.init_benchmark h_benchmark p_concrete_desc) =
      forward_code (CodeCall.init_benchmark h_benchmark p_concrete_desc)
  c_code (CodeCall.encode h_benchmark p_parameters h_plaintext) =
      forward_code (CodeCall.encode h_benchmark p_parameters h_plaintext)
  c_code (CodeCall.decode h_benchmark h_plaintext p_native) =
      forward_code (CodeCall.decode h_benchmark h_plaintext p_native)
  c_code (CodeCall.encrypt h_benchmark h_plaintext h_ciphertext) =
      forward_code (CodeCall.encrypt h_benchmark h_plaintext h_ciphertext)
  c_code (CodeCall.decrypt h_benchmark h_ciphertext h_plaintext) =
      forward_code (CodeCall.decrypt h_benchmark h_ciphertext h_plaintext)
  c_code (CodeCall.load h_benchmark h_local_packed_params local_count h_remote) =
      forward_code (CodeCall.load h_benchmark h_local_packed_params local_count h_remote)
  c_code (CodeCall.store h_benchmark h_remote h_local_packed_params local_count) =
      forward_code (CodeCall.store h_benchmark h_remote h_local_packed_params local_count)
  c_code
        (CodeCall.operate h_benchmark h_remote_packed_params p_param_indexers indexers_count
          h_remote_output) =
      forward_code (
        CodeCall.operate h_benchmark h_remote_packed_params p_param_indexers indexers_count
          h_remote_output)

  -- Those that return a size.
  unfoldable pub c_size : SizeCall → Loader Lib F → Target F SizeCall
  unfolding forward_size
  c_size (SizeCall.get_scheme_name h_engine s p_name size) =
      forward_size (SizeCall.get_scheme_name h_engine s p_name size)
  c_size (SizeCall.get_scheme_security_name h_engine s sec p_name size) =
      forward_size (SizeCall.get_scheme_security_name h_engine s sec p_name size)
  c_size
        (SizeCall.get_benchmark_description_ex h_engine h_bench_desc p_w_params p_description
          size) =
      forward_size
        (SizeCall.get_benchmark_description_ex h_engine h_bench_desc p_w_params p_description size)
  c_size (SizeCall.get_error_description h_engine code p_description size) =
      forward_size (SizeCall.get_error_description h_engine code p_description size)
  c_size (SizeCall.get_last_error_description h_engine p_description size) =
      forward_size (SizeCall.get_last_error_description h_engine p_description size)
