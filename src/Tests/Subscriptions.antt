-- ===== src/Tests/Subscriptions.antt =====
-- Subscription at work, to an engine of two descriptions.
use api_bridge.Base.{ℕ, zero, suc, ◌<◌, min, ◌≡◌, refl, arith, List, [], ◌∷◌}
use api_bridge.Types.{Handle, WorkloadParam, WorkloadParams, zero_param}
use api_bridge.Types.ParamType
use api_bridge.Types.Tag
use api_bridge.Memory.{World, returns, insert}
use api_bridge.Types.{BenchmarkDescriptor, ecode_critical_error}
use api_bridge.Memory.{bench_descriptor, Fails, Description, workload_params, params, description}
use api_bridge.Base.{inl}
use api_bridge.Engine.Benchmarks.{
  get_workload_params_count, get_default_workload_params_count, describe_benchmark,
}
use api_bridge.Engine.Descriptions.{describe_benchmark-unmatched}
use api_bridge.Engine.Defaults.{Apart, HasRoom, Copied, describe_benchmark_fills}
use api_bridge.Example.Workload.{example_descriptor}
use api_bridge.Backend.{Sizes}
use api_bridge.Engine.{description_handle}
use api_bridge.Tests.Start.{start, small_engine, small_description}

abbrev sizes : Sizes
sizes = record { base_engine = 8; benchmark_description = 8; benchmark_handle = 16 }

abbrev empty : World ℕ
empty = start

abbrev given : ℕ → Handle
given i = description_handle sizes i Tag.benchmark_description

-- The same memory with room for a descriptor.
abbrev blank : BenchmarkDescriptor
blank = record (example_descriptor) { workload = 0; data_type = 0 }

abbrev asked : World ℕ
asked = record empty { heap = (20, bench_descriptor blank) ∷ empty.heap; next = 21 }

describe_benchmark-unmatched_example :
    Fails ecode_critical_error asked (get_workload_params_count 1 (given 7) asked)
    × Fails ecode_critical_error asked (get_default_workload_params_count 1 (given 7) asked)
    × Fails ecode_critical_error asked (describe_benchmark 1 (given 7) 20 0 0 asked)
describe_benchmark-unmatched_example =
    describe_benchmark-unmatched 1 20 0 small_engine (given 7) 0 asked refl (inl (omega arith))

-- A description with one default set, of one parameter, and an array of two for it.
abbrev seven_param : WorkloadParam
seven_param = record (zero_param) { data_type = ParamType.uint64; value = 7 }

abbrev with_default : Description
with_default = record (small_description) { default_params = (seven_param ∷ []) ∷ [] }

abbrev rooms : List WorkloadParams
rooms = record { params = 22; count = 2 } ∷ []

abbrev asked_defaults : World ℕ
asked_defaults = record empty {
  heap =
      (20, bench_descriptor blank)
      ∷ (21, workload_params rooms)
      ∷ (22, params (zero_param ∷ zero_param ∷ []))
      ∷ insert 5 (description with_default) empty.heap;
  next = 23;
}

rooms-Apart : Apart rooms
rooms-Apart zero zero a b at there ne = absurd (ne refl)
rooms-Apart zero (suc j) a b at there ne = cc
rooms-Apart (suc i) j a b at there ne = cc

one_room : (j : ℕ) → j < min 3 1 → HasRoom ((seven_param ∷ []) ∷ []) rooms asked_defaults j
one_room zero lt = record {
  src = seven_param ∷ [];
  at_src = refl;
  room = record { params = 22; count = 2 };
  at_room = refl;
  announced = omega arith;
  dst = zero_param ∷ zero_param ∷ [];
  at_dst = refl;
  enough = omega arith;
}
one_room (suc j) lt = absurd (omega arith)

describe_benchmark_fills_example :
    (v : World ℕ) × (describe_benchmark 1 (given 0) 20 21 3 asked_defaults ≡ returns tt v)
    × Copied
        ((seven_param ∷ []) ∷ [])
        rooms
        0
        1
        (record asked_defaults {
          heap = insert 20 (bench_descriptor example_descriptor) asked_defaults.heap;
        })
        v
describe_benchmark_fills_example =
    describe_benchmark_fills sizes 1 20 21 small_engine 0 5 3 with_default blank rooms
      asked_defaults refl refl (omega arith) refl (ground arith) (omega arith) refl (omega arith)
      refl rooms-Apart one_room
