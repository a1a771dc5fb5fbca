-- ===== src/Types/Workload.antt =====
-- The values of `enum Workload` of hebench/api_bridge/types.h.
use api_bridge.Base.{ℕ}

abbrev pub matrix_multiply : ℕ
matrix_multiply = 1

abbrev pub eltwise_add : ℕ
eltwise_add = 2

abbrev pub eltwise_multiply : ℕ
eltwise_multiply = 3

abbrev pub dot_product : ℕ
dot_product = 4

abbrev pub logistic_regression : ℕ
logistic_regression = 5

abbrev pub logistic_regression_poly_d3 : ℕ
logistic_regression_poly_d3 = 6

abbrev pub logistic_regression_poly_d5 : ℕ
logistic_regression_poly_d5 = 7

abbrev pub logistic_regression_poly_d7 : ℕ
logistic_regression_poly_d7 = 8

abbrev pub simple_set_intersection : ℕ
simple_set_intersection = 9

abbrev pub generic : ℕ
generic = 10
