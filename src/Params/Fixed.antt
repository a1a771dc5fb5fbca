-- ===== src/Params/Fixed.antt =====
-- The workloads with a fixed number of parameters: `MatrixMultiply`, `VectorSize` and
-- `SimpleSetIntersection` of hebench/api_bridge/cpp/workload_params.hpp.
use api_bridge.Base.{ℕ}
use api_bridge.Text.{codes}
use api_bridge.Params.{
  Common, Result, ok, ◌>>=◌, ◌>>◌, common, set_named_uint64, get, put, validate,
}

-- The enumerators `Index_RowsM0` and so on are the numerals 0, 1 and 2.
unfoldable pub matrix_multiply : ℕ → ℕ → ℕ → Result Common
matrix_multiply rows_m0 cols_m0 cols_m1 = do
  a ← set_named_uint64 0 rows_m0 (codes "rows_M0") (common 3)
  b ← set_named_uint64 1 cols_m0 (codes "cols_M0") a
  set_named_uint64 2 cols_m1 (codes "cols_M1") b

-- `MatrixMultiply(w_params)`: the parameters are copied and validated.
unfoldable pub matrix_multiply_from : Common → Result Common
matrix_multiply_from w_params = do validate 3 w_params; ok w_params

abbrev pub rows_m0 : Common → Result ℕ
rows_m0 = get 0

abbrev pub cols_m0 : Common → Result ℕ
cols_m0 = get 1

abbrev pub cols_m1 : Common → Result ℕ
cols_m1 = get 2

abbrev pub put_rows_m0 : ℕ → Common → Result Common
put_rows_m0 = put 0

abbrev pub put_cols_m0 : ℕ → Common → Result Common
put_cols_m0 = put 1

abbrev pub put_cols_m1 : ℕ → Common → Result Common
put_cols_m1 = put 2

unfoldable pub vector_size : ℕ → Result Common
vector_size n = set_named_uint64 0 n (codes "n") (common 1)

unfoldable pub vector_size_from : Common → Result Common
vector_size_from w_params = do validate 1 w_params; ok w_params

unfoldable pub simple_set_intersection : ℕ → ℕ → ℕ → Result Common
simple_set_intersection n m k = do
  a ← set_named_uint64 0 n (codes "n") (common 3)
  b ← set_named_uint64 1 m (codes "m") a
  set_named_uint64 2 k (codes "k") b

unfoldable pub simple_set_intersection_from : Common → Result Common
simple_set_intersection_from w_params = do validate 3 w_params; ok w_params
