-- ===== src/Example/Safe.antt =====
-- The example backend keeps the invariant of reference-counted handles: what
-- api_bridge_example_backend/src owes to the wrapper.
use api_bridge.Base.{ℕ, zero, suc, ◌+◌, List, [], ◌∷◌, leb, ◌==◌, if◌then◌else◌}
use api_bridge.Types.{Address, DataPackCollection}
use api_bridge.Memory.{as_data_packs, as_indexers}
use api_bridge.Engine.{add_scheme_name, add_security_name, add_benchmark_description}
use api_bridge.Engine.Handles.Safe.{
  IsSafe, safe_rules, bind-IsSafe, then-IsSafe, deref-IsSafe, index-IsSafe, branch-IsSafe,
  pure-IsSafe,
}
use api_bridge.Engine.Handles.Writes.{write_rules, free_description}
use api_bridge.Engine.Handles.Invariant.{
  create_handle-IsSafe, retrieve_from_handle-IsSafe, duplicate_handle_as-IsSafe,
}
use api_bridge.Benchmark.{
  base_benchmark_with, find_loop, is_in_place, find_data_pack_index, find_data_pack,
}
use api_bridge.Params.{Result, ok, err}
use api_bridge.Api.Safe.{IsSafeBackend}
use api_bridge.Example.{Platform, Versions, lift}
use api_bridge.Example.Matrix.{Matrix}
use api_bridge.Example.Benchmark.{
  Payload, encode_param, encode_loop, decode_param, decode_loop, indexers_loop,
}
use api_bridge.Example.Benchmark
use api_bridge.Example.Description
use api_bridge.Example.Engine
use api_bridge.Example.Backend.{example}

module _ {P : Type 0} where
  lift-IsSafe : {A : Type 0} (r : Result A) → IsSafe {P = P} (lift r)
  lift-IsSafe (ok a) = record { ends = λ w v. v }
  lift-IsSafe (err e) = record { ends = λ w v. v }
  lift-IsSafe Result.undefined = record { ends = λ w v. tt }

  find_loop-IsSafe :
      (packs : List _) (count position left i retval : ℕ)
      → IsSafe {P = P} (find_loop packs count position left i retval)
  unfolding find_loop
  find_loop-IsSafe packs count position zero i retval = search safe_rules depth 5
  find_loop-IsSafe packs count position (suc left) i retval =
      branch-IsSafe (leb count retval)
        (bind-IsSafe (index-IsSafe packs i) λ pack.
          find_loop-IsSafe packs count position left (i + 1)
            (if pack.param_position == position then i else retval))
        pure-IsSafe

  find_data_pack-IsSafe :
      (parameters : DataPackCollection) (position : ℕ)
      → IsSafe {P = P} (find_data_pack parameters position)
  unfolding find_data_pack find_data_pack_index is_in_place
  find_data_pack-IsSafe parameters position = search (find_loop-IsSafe, safe_rules) depth 16

  add_scheme_name-IsSafe :
      (this : Address) (scheme : ℕ) (name : List ℕ)
      → IsSafe {P = P} (add_scheme_name this scheme name)
  unfolding add_scheme_name
  add_scheme_name-IsSafe this scheme name = search write_rules depth 12

  add_security_name-IsSafe :
      (this : Address) (security : ℕ) (name : List ℕ)
      → IsSafe {P = P} (add_security_name this security name)
  unfolding add_security_name
  add_security_name-IsSafe this security name = search write_rules depth 12

  add_benchmark_description-IsSafe :
      (this p : Address) → IsSafe {P = P} (add_benchmark_description this p)
  unfolding add_benchmark_description
  add_benchmark_description-IsSafe this p = search write_rules depth 12

  create_engine-IsSafe :
      (v : Versions) (p size : ℕ) → IsSafe {P = P} (Engine.create_engine v p size)
  unfolding Engine.create_engine Engine.create Engine.init
  create_engine-IsSafe v p size =
      search
        (
          lift-IsSafe, add_scheme_name-IsSafe, add_security_name-IsSafe,
          add_benchmark_description-IsSafe, write_rules,
        )
        depth 20

  free_descriptions-IsSafe : (ps : List Address) → IsSafe {P = P} (Engine.free_descriptions ps)
  unfolding Engine.free_descriptions
  free_descriptions-IsSafe [] = search safe_rules depth 5
  free_descriptions-IsSafe (p ∷ ps) = then-IsSafe (free_description p) (free_descriptions-IsSafe ps)

  destroy_engine-IsSafe : (p : Address) → IsSafe {P = P} (Engine.destroy_engine p)
  unfolding Engine.destroy_engine
  destroy_engine-IsSafe p = search (free_descriptions-IsSafe, write_rules) depth 16

  create_benchmark-IsSafe :
      (this e p : Address) → IsSafe {P = P} (Description.create_benchmark this e p)
  unfolding Description.create_benchmark Description.example_benchmark base_benchmark_with
  create_benchmark-IsSafe this e p = search (lift-IsSafe, write_rules) depth 24

  destroy_benchmark-IsSafe :
      (this p : Address) → IsSafe {P = P} (Description.destroy_benchmark this p)
  unfolding Description.destroy_benchmark
  destroy_benchmark-IsSafe this p = search write_rules depth 16

encode_param-IsSafe : (c : DataPackCollection) (i : ℕ) → IsSafe (encode_param c i)
unfolding encode_param
encode_param-IsSafe c i = search (find_data_pack-IsSafe, safe_rules) depth 20

encode_loop-IsSafe : (c : DataPackCollection) (left i : ℕ) → IsSafe (encode_loop c left i)
unfolding encode_loop
encode_loop-IsSafe c zero i = search safe_rules depth 5
encode_loop-IsSafe c (suc left) i =
    bind-IsSafe (encode_param-IsSafe c i)
      λ mat. bind-IsSafe (encode_loop-IsSafe c left (i + 1)) λ rest. pure-IsSafe

decode_param-IsSafe : (mat : Matrix) (p i : ℕ) → IsSafe (decode_param mat p i)
unfolding decode_param
decode_param-IsSafe mat p i =
    bind-IsSafe (deref-IsSafe as_data_packs p)
      λ packs. bind-IsSafe (index-IsSafe packs i) λ native_param. search write_rules depth 24

decode_loop-IsSafe : (mats : Payload) (p left i : ℕ) → IsSafe (decode_loop mats p left i)
unfolding decode_loop
decode_loop-IsSafe [] p left i = search safe_rules depth 5
decode_loop-IsSafe (mat ∷ mats) p zero i = search safe_rules depth 5
decode_loop-IsSafe (mat ∷ mats) p (suc left) i =
    then-IsSafe (search (decode_param-IsSafe, safe_rules) depth 8)
      (decode_loop-IsSafe mats p left (i + 1))

indexers_loop-IsSafe : (p left i : ℕ) → IsSafe (indexers_loop p left i)
unfolding indexers_loop
indexers_loop-IsSafe p zero i = search safe_rules depth 5
indexers_loop-IsSafe p (suc left) i = bind-IsSafe (deref-IsSafe as_indexers p) λ array.
    bind-IsSafe (index-IsSafe array i)
      λ indexer. then-IsSafe (search safe_rules depth 8) (indexers_loop-IsSafe p left (i + 1))

ruleset handle_rules = (
  create_handle-IsSafe, retrieve_from_handle-IsSafe, duplicate_handle_as-IsSafe, encode_loop-IsSafe,
  decode_loop-IsSafe, indexers_loop-IsSafe, write_rules,
)

-- Every function of the example backend keeps the invariant of reference-counted handles, whether it
-- returns or throws.
pub example-IsSafeBackend : (platform : Platform) → IsSafeBackend (example platform)
unfolding Benchmark.initialize Benchmark.encode Benchmark.decode Benchmark.encrypt Benchmark.decrypt
    Benchmark.load Benchmark.store Benchmark.operate Description.get_benchmark_description
example-IsSafeBackend platform = record {
  create_engine = create_engine-IsSafe platform.versions;
  destroy_engine = destroy_engine-IsSafe;
  create_benchmark = create_benchmark-IsSafe;
  destroy_benchmark = destroy_benchmark-IsSafe;
  get_benchmark_description = λ p q. search safe_rules depth 5;
  initialize = λ p d. search safe_rules depth 5;
  encode = λ p q. search handle_rules depth 20;
  decode = λ p h q. search handle_rules depth 16;
  encrypt = λ p h. search handle_rules depth 16;
  decrypt = λ p h. search handle_rules depth 16;
  load = λ p q count. search handle_rules depth 20;
  store = λ p h q count. search handle_rules depth 20;
  operate = λ p h q count. search handle_rules depth 20;
}
