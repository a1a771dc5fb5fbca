-- ===== src/Types/Tag.antt =====
-- The tags of the wrapper's classes: one bit each of the top 8 bits, which are reserved.
use api_bridge.Base.{ℕ}

abbrev pub base_engine : ℕ
base_engine = 0x8000_0000_0000_0000

abbrev pub base_benchmark : ℕ
base_benchmark = 0x4000_0000_0000_0000

abbrev pub engine_object : ℕ
engine_object = 0x2000_0000_0000_0000

abbrev pub benchmark_description : ℕ
benchmark_description = 0x1000_0000_0000_0000

abbrev pub mask_reserved_bits : ℕ
mask_reserved_bits = 0xff00_0000_0000_0000
