-- ===== src/Types/ParamType.antt =====
-- The values of `enum WorkloadParamType`. A zeroed parameter has none of them.
use api_bridge.Base.{ℕ}

abbrev pub int64 : ℕ
int64 = 1

abbrev pub uint64 : ℕ
uint64 = 2

abbrev pub float64 : ℕ
float64 = 3
