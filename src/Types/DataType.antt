-- ===== src/Types/DataType.antt =====
-- The values of `enum DataType` of hebench/api_bridge/types.h.
use api_bridge.Base.{ℕ}

abbrev pub int32 : ℕ
int32 = 1

abbrev pub int64 : ℕ
int64 = 2

abbrev pub float32 : ℕ
float32 = 3

abbrev pub float64 : ℕ
float64 = 4
