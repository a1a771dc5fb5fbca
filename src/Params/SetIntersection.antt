-- ===== src/Params/SetIntersection.antt =====
-- The accessors of `SimpleSetIntersection` of hebench/api_bridge/cpp/workload_params.hpp.
use api_bridge.Base.{ℕ}
use api_bridge.Params.{Common, Result, get, put}

abbrev pub n : Common → Result ℕ
n = get 0

abbrev pub put_n : ℕ → Common → Result Common
put_n = put 0

abbrev pub m : Common → Result ℕ
m = get 1

abbrev pub put_m : ℕ → Common → Result Common
put_m = put 1

abbrev pub k : Common → Result ℕ
k = get 2

abbrev pub put_k : ℕ → Common → Result Common
put_k = put 2
