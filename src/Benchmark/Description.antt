-- ===== src/Benchmark/Description.antt =====
-- `BenchmarkDescription` of hebench/api_bridge/src/benchmark.cpp.
use api_bridge.Base.{ℕ, not, ◌&&◌, List, [], ◌∷◌, ◌++◌, ◌==◌, length}
use api_bridge.Text.{Text, codes, is_empty}
use api_bridge.Types.{Address, BenchmarkDescriptor, WorkloadParam}
use api_bridge.Memory.{Description, standard, invalid_argument}
use api_bridge.Params.{Result, ok, ◌>>◌, throw_if}

-- `getBenchmarkDescription`, where a class does not override it.
unfoldable pub get_benchmark_description : Description → Address → Text
get_benchmark_description this p_w_params = []

abbrev pub get_benchmark_descriptor : Description → BenchmarkDescriptor
get_benchmark_descriptor this = this.descriptor

abbrev pub get_workload_default_parameters : Description → List (List WorkloadParam)
get_workload_default_parameters this = this.default_params

abbrev pub front_size : List (List WorkloadParam) → ℕ
front_size [] = 0
front_size (first ∷ rest) = length first

unfoldable pub get_workload_parameter_count : Description → ℕ
get_workload_parameter_count this = front_size this.default_params

unfoldable pub add_default_parameters : Description → List WorkloadParam → Result Description
add_default_parameters this default_params_set = do
  throw_if
      (not (is_empty this.default_params)
        && not (front_size this.default_params == length default_params_set))
      (standard invalid_argument
        (codes "Size of new default set of arguments differs from other existing default sets."))
  ok (record this { default_params = this.default_params ++ default_params_set ∷ [] })
