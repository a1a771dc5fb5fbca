-- ===== src/Example/Engine.antt =====
-- `ExampleEngine` of api_bridge_example_backend/src/ex_engine.cpp.
use api_bridge.Base.{ℕ, not, ◌||◌, ltb, ◌==◌, List, [], ◌∷◌}
use api_bridge.Base.Int.{pos}
use api_bridge.Text.{codes}
use api_bridge.Text.Message.{generate_message}
use api_bridge.Types.{Address, null, ecode_critical_error}
use api_bridge.Types.Tag
use api_bridge.Memory.{
  hebench_error, Engine, M, ◌>>=◌, ◌>>◌, pure, throw_if, when, deref, allocate, free, as_engine,
  as_description, engine, description,
}
use api_bridge.Engine.{add_scheme_name, add_security_name, add_benchmark_description}
use api_bridge.Example.{Versions, example_type, lift}
use api_bridge.Example.Workload.{example_description, scheme_plain, security_none}

-- A new engine.
abbrev pub example_engine : Engine
example_engine = record {
  dynamic_type = example_type;
  class_tag = Tag.base_engine;
  descriptors = [];
  map_scheme_name = [];
  map_security_name = [];
}

module _ {P : Type 0} where
  -- `init`
  unfoldable pub init : Address → M P (Unit {0})
  init this = do
    add_scheme_name this scheme_plain (codes "Plain")
    add_security_name this security_none (codes "None")
    d ← lift example_description
    p_desc ← allocate (description d)
    add_benchmark_description this p_desc

  unfoldable pub create : M P Address
  unfolding init
  create = do p_retval ← allocate (engine example_engine); init p_retval; pure p_retval

  unfoldable pub create_engine : Versions → Address → ℕ → M P Address
  unfolding create
  create_engine v p_buffer size = do
    throw_if
        (not (v.major == v.needed_major)
          || not (v.minor == v.needed_minor)
          || ltb v.revision v.needed_revision)
        (hebench_error
          (generate_message (codes "Critical: Invalid HEBench API version detected.")
            (codes "createEngine") [] (codes "api_bridge_example_backend/src/ex_engine.cpp")
            (pos 29))
          ecode_critical_error)
    create

  -- The descriptions go with the engine, their only owner.
  unfoldable pub free_descriptions : List Address → M P (Unit {0})
  free_descriptions [] = pure tt
  free_descriptions (p_desc ∷ rest) = do free as_description p_desc; free_descriptions rest

  unfoldable pub destroy_engine : Address → M P (Unit {0})
  unfolding free_descriptions
  destroy_engine p = do
    when (not (p == null)) do
      e ← deref as_engine p
      when (e.dynamic_type == example_type) do free as_engine p; free_descriptions e.descriptors
