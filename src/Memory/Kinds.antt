-- ===== src/Memory/Kinds.antt =====
-- The kinds of objects that live in memory: the caller's cells and arrays of
-- hebench/api_bridge/types.h, and the wrapper's own objects.
use api_bridge.Base.{ℕ, Option, none, some, List}
use api_bridge.Text.{Text}
use api_bridge.Types.{
  Address, Handle, WorkloadParam, WorkloadParams, BenchmarkDescriptor, DataPack, DataPackCollection,
  ParameterIndexer,
}

-- `BaseEngine`. `dynamic_type` is what virtual calls and `dynamic_cast` read, `class_tag` what
-- `classTag()` returns. Descriptions are held by address.
pub record Engine : Type 0 where
  pub dynamic_type : ℕ
  pub class_tag : ℕ
  pub descriptors : List Address
  pub map_scheme_name : List (ℕ × Text)
  pub map_security_name : List (ℕ × Text)

-- `BenchmarkDescription`
pub record Description : Type 0 where
  pub dynamic_type : ℕ
  pub class_tag : ℕ
  pub descriptor : BenchmarkDescriptor
  pub default_params : List (List WorkloadParam)

-- `BaseBenchmark`
pub record Benchmark : Type 0 where
  pub dynamic_type : ℕ
  pub class_tag : ℕ
  pub engine : Address
  pub bench_description : BenchmarkDescriptor
  pub bench_params : List WorkloadParam

pub record BenchmarkHandle : Type 0 where
  pub p_benchmark : Address
  pub p_bench_description : Address

-- `EngineObject`: its engine and its shared pointer, here to the block with the count.
pub record EngineObject : Type 0 where
  pub engine : Address
  pub p_obj : Address

-- What shared pointers point to: the object and the number of its owners.
pub record Shared (P : Type 0) : Type 0 where
  pub value : P
  pub use_count : ℕ

pub data Object (P : Type 0) : Type 0 where
  engine : Engine → Object P
  description : Description → Object P
  benchmark : Benchmark → Object P
  benchmark_handle : BenchmarkHandle → Object P
  engine_object : EngineObject → Object P
  shared : Shared P → Object P
  handles : List Handle → Object P
  word : ℕ → Object P
  chars : List ℕ → Object P
  bench_descriptor : BenchmarkDescriptor → Object P
  workload_params : List WorkloadParams → Object P
  params : List WorkloadParam → Object P
  pack_collection : DataPackCollection → Object P
  data_packs : List DataPack → Object P
  indexers : List ParameterIndexer → Object P
  doubles : List ℕ → Object P

-- The kinds by which an object is read.
module _ {P : Type 0} where
  abbrev pub as_engine : Object P → Option Engine
  as_engine (engine x) = some x
  as_engine _ = none

  abbrev pub as_description : Object P → Option (Description)
  as_description (description x) = some x
  as_description _ = none

  abbrev pub as_benchmark : Object P → Option (Benchmark)
  as_benchmark (benchmark x) = some x
  as_benchmark _ = none

  abbrev pub as_benchmark_handle : Object P → Option (BenchmarkHandle)
  as_benchmark_handle (benchmark_handle x) = some x
  as_benchmark_handle _ = none

  abbrev pub as_engine_object : Object P → Option (EngineObject)
  as_engine_object (engine_object x) = some x
  as_engine_object _ = none

  abbrev pub as_shared : Object P → Option (Shared P)
  as_shared (shared x) = some x
  as_shared _ = none

  abbrev pub as_handles : Object P → Option (List Handle)
  as_handles (handles x) = some x
  as_handles _ = none

  abbrev pub as_word : Object P → Option ℕ
  as_word (word x) = some x
  as_word _ = none

  abbrev pub as_chars : Object P → Option (List ℕ)
  as_chars (chars x) = some x
  as_chars _ = none

  abbrev pub as_bench_descriptor : Object P → Option (BenchmarkDescriptor)
  as_bench_descriptor (bench_descriptor x) = some x
  as_bench_descriptor _ = none

  abbrev pub as_workload_params : Object P → Option (List WorkloadParams)
  as_workload_params (workload_params x) = some x
  as_workload_params _ = none

  abbrev pub as_params : Object P → Option (List WorkloadParam)
  as_params (params x) = some x
  as_params _ = none

  abbrev pub as_pack_collection : Object P → Option (DataPackCollection)
  as_pack_collection (pack_collection x) = some x
  as_pack_collection _ = none

  abbrev pub as_data_packs : Object P → Option (List DataPack)
  as_data_packs (data_packs x) = some x
  as_data_packs _ = none

  abbrev pub as_indexers : Object P → Option (List ParameterIndexer)
  as_indexers (indexers x) = some x
  as_indexers _ = none

  abbrev pub as_doubles : Object P → Option (List ℕ)
  as_doubles (doubles x) = some x
  as_doubles _ = none
