-- ===== src/Tests/Details.antt =====
-- Default sets that a class adds: one without parameters, and two of different sizes.
use api_bridge.Base.{ℕ, ◌≡◌, ◌⊎◌, refl, arith, List, [], ◌∷◌}
use api_bridge.Types.{WorkloadParam, zero_param, ecode_success}
use api_bridge.Memory.{World, Description, returns, insert, word, description}
use api_bridge.Params.{ok}
use api_bridge.Engine.{description_handle}
use api_bridge.Benchmark.Description.{add_default_parameters}
use api_bridge.Benchmark.Defaults.{AllOf, add_all, with_sets, refusal, add_all-AllOf}
use api_bridge.Api.Engines
use api_bridge.Api.Details.{get_workload_params_details-add_all}
use api_bridge.Example.Backend.{example}
use api_bridge.Example.Benchmark.{Payload}
use api_bridge.Tests.Calls.{whole_numbers}
use api_bridge.Tests.Discovery.{exploring, engine_1}
use api_bridge.Tests.Start.{small_engine, small_description}

abbrev uneven : List (List WorkloadParam)
uneven = (zero_param ∷ []) ∷ [] ∷ []

add_all-AllOf_example :
    (AllOf 1 uneven × (add_all small_description uneven ≡ ok (with_sets small_description uneven)))
    ⊎ ((AllOf 1 uneven → ⊥) × (add_all small_description uneven ≡ refusal))
add_all-AllOf_example = add_all-AllOf small_description uneven refl

abbrev no_params : List (List WorkloadParam)
no_params = [] ∷ []

abbrev described : Description
described = with_sets small_description no_params

add_all-no_params : add_all small_description no_params ≡ ok described
unfolding add_default_parameters
add_all-no_params = refl

abbrev asking : World Payload
asking = record exploring {
  heap = (5, description described) ∷ (22, word 9) ∷ exploring.heap;
  next = 23;
}

get_workload_params_details-add_all_example :
    (k : ℕ) × AllOf k no_params
    × (no_params ≡ [] → k ≡ 0)
    × (Engines.get_workload_params_details
          (example whole_numbers)
          engine_1
          (description_handle (example whole_numbers).sizes 0 described.class_tag)
          21
          22
          asking
        ≡ returns ecode_success
            (record asking { heap = insert 22 (word 1) (insert 21 (word k) asking.heap) }))
get_workload_params_details-add_all_example =
    get_workload_params_details-add_all (example whole_numbers) engine_1 small_engine asking
      (omega arith, refl, refl) 0 5 described refl (omega arith) refl (omega arith)
      small_description no_params 21 22 0 9 refl add_all-no_params (omega arith) refl (omega arith)
      refl
