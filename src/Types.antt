-- ===== src/Types.antt =====
-- The structures of hebench/api_bridge/types.h. A pointer is an address, 0 the null pointer. A
-- 64-bit integer, signed or not, and a double are the number that their 64 bits spell.
pub mod ParamType
pub mod Tag
pub mod Workload
pub mod DataType
pub mod Category
use api_bridge.Base.{ℕ, ◌≤◌, ◌<◌, ◌^◌, List, replicate, ◌≡◌}
use api_bridge.Text.{Text}

abbrev pub Address : Type 0
Address = ℕ

abbrev pub null : Address
null = 0

abbrev pub ErrorCode : Type 0
ErrorCode = ℕ

abbrev pub ecode_success : ErrorCode
ecode_success = 0

abbrev pub ecode_invalid_args : ErrorCode
ecode_invalid_args = 0x7fff_fffe

abbrev pub ecode_critical_error : ErrorCode
ecode_critical_error = 0x7fff_ffff

abbrev pub max_buffer_size : ℕ
max_buffer_size = 256

-- `HEBENCH_HE_PARAM_FLAGS_ALL_PLAIN`
abbrev pub param_flags_all_plain : ℕ
param_flags_all_plain = 0

-- `_FlexibleData`, which is both `Handle` and `NativeDataBuffer`.
pub record Handle : Type 0 where
  pub p : Address
  pub size : ℕ
  pub tag : ℕ

-- What value-initialisation and `memset` with 0 leave.
abbrev pub null_handle : Handle
null_handle = record { p = 0; size = 0; tag = 0 }

-- `value` is the 64 bits that the union's three members share.
pub record WorkloadParam : Type 0 where
  pub data_type : ℕ
  pub name : List ℕ
  pub value : ℕ

abbrev pub zero_param : WorkloadParam
zero_param = record { data_type = 0; name = replicate max_buffer_size 0; value = 0 }

-- A pointer to the parameters and their number.
pub record WorkloadParams : Type 0 where
  pub params : Address
  pub count : ℕ

-- `cat_params` keeps the fields that the example writes; the rest of the union is `reserved`.
pub record CategoryParams : Type 0 where
  pub min_test_time_ms : ℕ
  pub reserved : List ℕ

pub record BenchmarkDescriptor : Type 0 where
  pub workload : ℕ
  pub data_type : ℕ
  pub category : ℕ
  pub cat_params : CategoryParams
  pub cipher_param_mask : ℕ
  pub scheme : ℕ
  pub security : ℕ
  pub other : ℕ

pub record DataPack : Type 0 where
  pub p_buffers : Address
  pub buffer_count : ℕ
  pub param_position : ℕ

pub record DataPackCollection : Type 0 where
  pub p_data_packs : Address
  pub pack_count : ℕ

pub record ParameterIndexer : Type 0 where
  pub value_index : ℕ
  pub batch_size : ℕ
