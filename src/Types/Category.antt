-- ===== src/Types/Category.antt =====
-- The values of `enum Category` of hebench/api_bridge/types.h.
use api_bridge.Base.{ℕ}

abbrev pub latency : ℕ
latency = 1

abbrev pub offline : ℕ
offline = 2
