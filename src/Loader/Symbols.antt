-- ===== src/Loader/Symbols.antt =====
-- The functions of `ExternFunctions`, in the order of dynamic_lib_load/src/dynamic_lib_load.cpp,
-- and the symbol by which each is looked up.
use api_bridge.Base.{ℕ, List, [], ◌∷◌}
use api_bridge.Text.{Text, codes}

pub data Symbol : Type 0 where
  destroy_handle init_engine subscribe_benchmarks_count subscribe_benchmarks
        get_workload_params_details describe_benchmark create_benchmark init_benchmark encode decode
        encrypt decrypt load store operate get_scheme_name get_scheme_security_name
        get_benchmark_description_ex get_error_description get_last_error_description :
      Symbol

-- The position of its pointer in the structure.
unfoldable pub position : Symbol → ℕ
position destroy_handle = 0
position init_engine = 1
position subscribe_benchmarks_count = 2
position subscribe_benchmarks = 3
position get_workload_params_details = 4
position describe_benchmark = 5
position create_benchmark = 6
position init_benchmark = 7
position encode = 8
position decode = 9
position encrypt = 10
position decrypt = 11
position load = 12
position store = 13
position operate = 14
position get_scheme_name = 15
position get_scheme_security_name = 16
position get_benchmark_description_ex = 17
position get_error_description = 18
position get_last_error_description = 19

-- The string that `loadLibrary` passes for the pointer.
unfoldable pub symbol_name : Symbol → Text
symbol_name destroy_handle = codes "destroyHandle"
symbol_name init_engine = codes "initEngine"
symbol_name subscribe_benchmarks_count = codes "subscribeBenchmarksCount"
symbol_name subscribe_benchmarks = codes "subscribeBenchmarks"
symbol_name get_workload_params_details = codes "getWorkloadParamsDetails"
symbol_name describe_benchmark = codes "describeBenchmark"
symbol_name create_benchmark = codes "createBenchmark"
symbol_name init_benchmark = codes "initBenchmark"
symbol_name encode = codes "encode"
symbol_name decode = codes "decode"
symbol_name encrypt = codes "encrypt"
symbol_name decrypt = codes "decrypt"
symbol_name load = codes "load"
symbol_name store = codes "store"
symbol_name operate = codes "operate"
symbol_name get_scheme_name = codes "getSchemeName"
symbol_name get_scheme_security_name = codes "getSchemeSecurityName"
symbol_name get_benchmark_description_ex = codes "getBenchmarkDescriptionEx"
symbol_name get_error_description = codes "getErrorDescription"
symbol_name get_last_error_description = codes "getLastErrorDescription"

-- The assignments of `loadLibrary`, in order.
abbrev pub symbols : List Symbol
symbols =
    destroy_handle ∷ init_engine ∷ subscribe_benchmarks_count ∷ subscribe_benchmarks
    ∷ get_workload_params_details ∷ describe_benchmark ∷ create_benchmark ∷ init_benchmark ∷ encode
    ∷ decode ∷ encrypt ∷ decrypt ∷ load ∷ store ∷ operate ∷ get_scheme_name
    ∷ get_scheme_security_name ∷ get_benchmark_description_ex ∷ get_error_description
    ∷ get_last_error_description ∷ []
