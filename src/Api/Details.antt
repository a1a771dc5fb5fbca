-- ===== src/Api/Details.antt =====
-- `getWorkloadParamsDetails` of hebench/api_bridge/src/main.cpp, about a description whose class has
-- added its default sets of parameters.
use api_bridge.Base.{ℕ, ◌≡◌, ◌≢◌, ◌∙◌, ap, arith, some, List, [], length, get_elem?, bit_and}
use api_bridge.Types.{Handle, WorkloadParam, ecode_success}
use api_bridge.Types.Tag
use api_bridge.Memory.{
  World, Object, Engine, Description, returns, lookup, insert, word, description, lookup-insert,
}
use api_bridge.Backend.{Backend}
use api_bridge.Params.{ok}
use api_bridge.Benchmark.Defaults.{AllOf, add_all, added}
use api_bridge.Benchmark.Description.{front_size, get_workload_parameter_count}
use api_bridge.Engine.{description_handle}
use api_bridge.Engine.Benchmarks.{get_workload_params_count, get_default_workload_params_count}
use api_bridge.Engine.Subscription.{match_benchmark-description_handle}
use api_bridge.Api.{check_handle_bits}
use api_bridge.Api.Engines
use api_bridge.Api.Texts.{IsEngine}

module _ {P : Type 0} (b : Backend P) (h_engine : Handle) (e : Engine) (w : World P)
    (is_engine : IsEngine h_engine e w) (i p_bd : ℕ) (d : Description)
    (listed : get_elem? e.descriptors i ≡ some p_bd) (alive : p_bd ≢ 0)
    (found : lookup p_bd w.heap ≡ some (description d))
    (tagged : bit_and d.class_tag Tag.benchmark_description ≢ 0) where
  details_run :
      (p q m n : ℕ)
      → p ≢ 0
      → lookup p w.heap ≡ some (word m)
      → q ≢ 0
      → lookup q w.heap ≡ some (word n)
      → Engines.get_workload_params_details b h_engine
          (description_handle b.sizes i d.class_tag)
          p
          q
          w
        ≡ returns ecode_success (record w {
          heap =
              insert q
                (word (length d.default_params))
                (insert p (word (front_size d.default_params)) w.heap);
        })
  unfolding Engines.get_workload_params_details check_handle_bits get_workload_params_count
      get_default_workload_params_count get_workload_parameter_count
  details_run p q m n ne_p at_p ne_q at_q =
      let matches = match_benchmark-description_handle e b.sizes i d.class_tag p_bd listed tagged in
      let counted : Object P = word (front_size d.default_params) in
      ground (
        arith,
        is_engine.0,
        is_engine.1,
        is_engine.2,
        matches,
        found,
        at_p,
        at_q,
        lookup-insert p h_engine.p counted w.heap,
        lookup-insert p p_bd counted w.heap,
        lookup-insert p q counted w.heap,
      )

  -- A description with the tag of descriptions, whose class has added sets of default parameters one
  -- after another, without an exception, and that an engine lists: asked through the API, with the
  -- engine's handle and the one that subscription gives out for the description, for the numbers of
  -- its parameters and of its default sets, with a cell for each, the engine gives a number that
  -- every set has, 0 if there are none, and the number of the sets, and changes nothing else.
  pub get_workload_params_details-add_all :
      (blank : Description) (sets : List (List WorkloadParam)) (p q m n : ℕ)
      → blank.default_params ≡ []
      → add_all blank sets ≡ ok d
      → p ≢ 0
      → lookup p w.heap ≡ some (word m)
      → q ≢ 0
      → lookup q w.heap ≡ some (word n)
      → (k : ℕ) × AllOf k sets
        × (sets ≡ [] → k ≡ 0)
        × (Engines.get_workload_params_details b h_engine
              (description_handle b.sizes i d.class_tag)
              p
              q
              w
            ≡ returns ecode_success
                (record w { heap = insert q (word (length sets)) (insert p (word k) w.heap) }))
  get_workload_params_details-add_all blank sets p q m n none_yet adds ne_p at_p ne_q at_q =
      let (all, same) = added blank d sets none_yet adds in
      (
        front_size sets,
        all,
        λ e. ap front_size e,
        details_run p q m n ne_p at_p ne_q at_q
            ∙ ap
                (λ xs. returns ecode_success (record w {
                  heap = insert q (word (length xs)) (insert p (word (front_size xs)) w.heap);
                }))
                same,
      )
