-- ===== src/Params/VectorSize.antt =====
-- The accessors of `VectorSize` of hebench/api_bridge/cpp/workload_params.hpp, which is also
-- `EltwiseAdd`, `EltwiseMultiply`, `DotProduct` and `LogisticRegression`.
use api_bridge.Base.{ℕ}
use api_bridge.Params.{Common, Result, get, put}

abbrev pub n : Common → Result ℕ
n = get 0

abbrev pub put_n : ℕ → Common → Result Common
put_n = put 0
