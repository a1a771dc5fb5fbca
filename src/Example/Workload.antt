-- ===== src/Example/Workload.antt =====
-- The workload of the example, of api_bridge_example_backend/src/ex_benchmark.cpp: its descriptor,
-- its default parameters and the parameters that it accepts.
use api_bridge.Base.{ℕ, ◌+◌, not, ◌||◌, ◌==◌, List, [], ◌∷◌, replicate}
use api_bridge.Text.{codes}
use api_bridge.Types.{ecode_invalid_args, param_flags_all_plain, BenchmarkDescriptor, WorkloadParam}
use api_bridge.Types.Tag
use api_bridge.Types.Workload
use api_bridge.Types.DataType
use api_bridge.Types.Category
use api_bridge.Memory.{Description}
use api_bridge.Params.{Result, ◌>>=◌, throw_if}
use api_bridge.Params.Fixed.{
  matrix_multiply, matrix_multiply_from, rows_m0, cols_m0, cols_m1, put_rows_m0, put_cols_m0,
  put_cols_m1,
}
use api_bridge.Benchmark.Description.{add_default_parameters}
use api_bridge.Example.{example_type, example_error}
use api_bridge.Example.Matrix.{dim}

-- The constants of api_bridge_example_backend/include/ex_benchmark.h.
abbrev pub num_workload_params : ℕ
num_workload_params = 3

abbrev pub num_operands : ℕ
num_operands = 2

-- The constants of api_bridge_example_backend/include/ex_engine.h.
abbrev pub scheme_plain : ℕ
scheme_plain = 0

abbrev pub security_none : ℕ
security_none = 0

abbrev pub benchmark_tag : ℕ
benchmark_tag = 0x1

-- `classTag()` of the benchmark. The bits of the two tags are apart, so `|` is their sum.
abbrev pub benchmark_class_tag : ℕ
benchmark_class_tag = Tag.base_benchmark + benchmark_tag

-- MatrixMultiply on Float64, category Latency with one warm-up, all in plain text.
abbrev pub example_descriptor : BenchmarkDescriptor
example_descriptor = record {
  workload = Workload.matrix_multiply;
  data_type = DataType.float64;
  category = Category.latency;
  cat_params = record { min_test_time_ms = 2000; reserved = 1 ∷ replicate 63 0 };
  cipher_param_mask = param_flags_all_plain;
  scheme = scheme_plain;
  security = security_none;
  other = 0;
}

-- The constructor.
unfoldable pub example_description : Result Description
example_description = do
  zeros ← matrix_multiply 0 0 0
  rows ← put_rows_m0 dim zeros
  cols ← put_cols_m0 dim rows
  default_workload_params ← put_cols_m1 dim cols
  add_default_parameters
      (record {
        dynamic_type = example_type;
        class_tag = Tag.benchmark_description;
        descriptor = example_descriptor;
        default_params = [];
      })
      default_workload_params

-- The tests of the benchmark's constructor on the values of the parameters.
unfoldable pub check_workload : List WorkloadParam → Result (Unit {0})
check_workload bench_params = do
  w_params ← matrix_multiply_from bench_params
  rows ← rows_m0 w_params
  cols ← cols_m0 w_params
  inner ← cols_m1 w_params
  throw_if (not (rows == dim) || not (cols == dim) || not (inner == dim)) (
      example_error "ExampleBenchmark" "ExampleBenchmark" 108
        (codes
          "Invalid workload parameters. This workload only supports matrices of dimensions 100 x 100.")
        ecode_invalid_args)
