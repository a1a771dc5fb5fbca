-- ===== src/Tests/Discovery.antt =====
-- A caller finds the two benchmarks of an engine.
use api_bridge.Base.{ℕ, ◌≡◌, refl, arith, some, List, [], ◌∷◌, ◌++◌, get_elem?}
use api_bridge.Types.{Handle, BenchmarkDescriptor, null_handle, ecode_success}
use api_bridge.Types.Tag
use api_bridge.Memory.{World, Description, returns, lookup, insert, handles, word, bench_descriptor}
use api_bridge.Api.Engines
use api_bridge.Api.Discovery.{describe_benchmark-subscribe_benchmarks}
use api_bridge.Example.Workload.{example_descriptor}
use api_bridge.Example.Backend.{example}
use api_bridge.Example.Benchmark.{Payload}
use api_bridge.Tests.Calls.{whole_numbers}
use api_bridge.Tests.Start.{start, small_engine, small_description}

abbrev two_descriptions : List Description
two_descriptions = small_description ∷ small_description ∷ []

abbrev blank : BenchmarkDescriptor
blank = record (example_descriptor) { workload = 0; data_type = 0 }

abbrev two_null : List Handle
two_null = null_handle ∷ null_handle ∷ []

abbrev pub exploring : World Payload
exploring = record start {
  heap = (20, bench_descriptor blank) ∷ (21, word 0) ∷ (start {P = Payload}).heap;
  next = 22;
}

abbrev pub engine_1 : Handle
engine_1 = record { p = 1; size = 8; tag = Tag.base_engine }

describe_benchmark-subscribe_benchmarks_example :
    (v : World Payload) × (u : World Payload) × (hs : List Handle)
    × (Engines.subscribe_benchmarks_count (example whole_numbers) engine_1 21 exploring
        ≡ returns ecode_success v)
    × (lookup 21 v.heap ≡ some (word 2))
    × (Engines.subscribe_benchmarks (example whole_numbers) engine_1 3 2 v
        ≡ returns ecode_success u)
    × (lookup 3 u.heap ≡ some (handles (hs ++ [])))
    × ((i : ℕ) (d : Description)
        → get_elem? two_descriptions i ≡ some d
        → (g : Handle) × (get_elem? hs i ≡ some g)
          × (Engines.describe_benchmark (example whole_numbers) engine_1 g 20 0 0 u
              ≡ returns ecode_success
                  (record u { heap = insert 20 (bench_descriptor d.descriptor) u.heap })))
describe_benchmark-subscribe_benchmarks_example =
    describe_benchmark-subscribe_benchmarks (example whole_numbers) engine_1 small_engine exploring
      two_descriptions (omega arith, refl, refl)
      ((omega arith, refl, omega arith), ((omega arith, refl, omega arith), tt)) 21 3 20 0 two_null
      blank (omega arith) refl (omega arith) refl (omega arith) (omega arith) refl
