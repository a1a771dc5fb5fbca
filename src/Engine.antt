-- ===== src/Engine.antt =====
-- `BaseEngine` of hebench/api_bridge/src/engine.cpp: its tables and its descriptions. The children
-- are its benchmarks and its handles.
pub mod Benchmarks
pub mod Handles
pub mod Subscription
pub mod Listed
pub mod Tables
pub mod Descriptions
pub mod Defaults
pub mod Invariant
use Prim.Native.String.{String}
use api_bridge.Base.{
  ℕ, zero, suc, ◌+◌, min, Bool, true, false, not, ◌&&◌, Option, none, some, List, [], ◌∷◌, ◌++◌,
  ltb, ◌==◌, if◌then◌else◌, length, set, get_elem?, bit_and,
}
use api_bridge.Base.Int.{pos}
use api_bridge.Text.{Text, codes, to_string}
use api_bridge.Text.Message.{generate_message}
use api_bridge.Types.{
  Address, null, ErrorCode, ecode_success, ecode_invalid_args, ecode_critical_error, Handle,
}
use api_bridge.Types.Tag
use api_bridge.Memory.{
  Engine, Exception, hebench_error, M, ◌>>=◌, ◌>>◌, pure, throw_if, gets, modify, deref, assign,
  defined, index, as_engine, as_description, as_handles, handles, engine, lookup, insert,
}
use api_bridge.Backend.{Sizes}

-- `HEBERROR_MSG_CLASS`, at a line of a file. `__FILE__` is taken to be the path from the
-- repository's root.
abbrev pub class_error : String → String → String → ℕ → Text → ErrorCode → Exception
class_error file container function line message code =
    hebench_error
      (generate_message message (codes function) (codes container) (codes file) (pos line)) code

abbrev pub engine_error : String → ℕ → Text → ErrorCode → Exception
engine_error = class_error "hebench/api_bridge/src/engine.cpp" "BaseEngine"

-- The texts of the error codes that are known from the start.
abbrev pub initial_error_desc : List (ℕ × Text)
initial_error_desc =
    (ecode_success, codes "Success")
    ∷ (ecode_invalid_args, codes "Invalid argument.")
    ∷ (ecode_critical_error, codes "Critical error.")
    ∷ []

-- `count(key) > 0`
abbrev pub is_known : ℕ → List (ℕ × Text) → Bool
is_known key table = elim (lookup key table) [ none ↦ false | some text ↦ true ]

-- The accessors of the tables, and the number of descriptions.
abbrev pub scheme_name : Engine → List (ℕ × Text)
scheme_name this = this.map_scheme_name

abbrev pub security_name : Engine → List (ℕ × Text)
security_name this = this.map_security_name

abbrev pub subscribe_benchmark_count : Engine → ℕ
subscribe_benchmark_count this = length this.descriptors

module _ {P : Type 0} where
  abbrev pub get_last_error : M P ErrorCode
  get_last_error = gets (λ w. w.last_error)

  abbrev pub get_last_error_desc : M P Text
  get_last_error_desc = gets (λ w. w.last_error_description)

  -- The text of an unknown code is `UnknownErrorMsg`.
  unfoldable pub get_error_desc : ErrorCode → M P Text
  get_error_desc err_code = gets λ w. elim (lookup err_code w.map_error_desc) [
    | none ↦ codes "Unknown Error"
    | some description ↦ description
  ]

  -- The overload with a text.
  unfoldable pub set_last_error_text : ErrorCode → Text → M P (Unit {0})
  set_last_error_text value err_desc =
      modify λ w. record w { last_error = value; last_error_description = err_desc }

  unfoldable pub set_last_error : ErrorCode → M P (Unit {0})
  unfolding get_error_desc set_last_error_text
  set_last_error value = do err_desc ← get_error_desc value; set_last_error_text value err_desc

  unfoldable pub add_benchmark_description : Address → Address → M P (Unit {0})
  add_benchmark_description this p_desc = do
    e ← deref as_engine this
    assign as_engine this (engine (record e { descriptors = e.descriptors ++ p_desc ∷ [] }))

  unfoldable pub add_error_code : ErrorCode → Text → M P (Unit {0})
  add_error_code code description = do
    table ← gets (λ w. w.map_error_desc)
    throw_if (is_known code table) (
        engine_error "addErrorCode" 75 (codes "Error code already specified.") ecode_critical_error)
    modify (λ w. record w { map_error_desc = insert code description w.map_error_desc })

  unfoldable pub add_scheme_name : Address → ℕ → Text → M P (Unit {0})
  add_scheme_name this scheme name = do
    e ← deref as_engine this
    throw_if (is_known scheme e.map_scheme_name)
        (engine_error "addSchemeName" 83 (codes "Scheme already specified.") ecode_critical_error)
    assign as_engine this
        (engine (record e { map_scheme_name = insert scheme name e.map_scheme_name }))

  unfoldable pub add_security_name : Address → ℕ → Text → M P (Unit {0})
  add_security_name this security name = do
    e ← deref as_engine this
    throw_if (is_known security e.map_security_name) (
        engine_error "addSecurityName" 91 (codes "Security type already specified.")
          ecode_critical_error)
    assign as_engine this
        (engine (record e { map_security_name = insert security name e.map_security_name }))

-- The description that a handle names, or null.
unfoldable pub match_benchmark : Engine → Handle → Address
match_benchmark e h_desc =
    if ltb h_desc.p (length e.descriptors)
      && not (bit_and h_desc.tag Tag.benchmark_description == 0)
    then elim (get_elem? e.descriptors h_desc.p) [ none ↦ null | some p_bd ↦ p_bd ]
    else null

-- The exception of a call with another number of benchmarks.
abbrev pub wrong_count : ℕ → ℕ → Exception
wrong_count expected count =
    engine_error "subscribeBenchmarks" 116
      (codes "Invalid size parameter: `count`. Expected "
        ++ (to_string expected ++ (codes ", but " ++ (to_string count ++ codes " received."))))
      ecode_invalid_args

-- The handle that subscription gives out for the description at a position.
abbrev pub description_handle : Sizes → ℕ → ℕ → Handle
description_handle sizes i class_tag = record {
  p = i;
  size = sizes.benchmark_description;
  tag = class_tag;
}

module _ {P : Type 0} (sizes : Sizes) where
  -- The loop of `subscribeBenchmarks` at round `i`, with `left` rounds left.
  unfoldable pub subscribe_loop : List Address → Address → ℕ → ℕ → M P (Unit {0})
  subscribe_loop descriptors p_h_bench_descs zero i = pure tt
  subscribe_loop descriptors p_h_bench_descs (suc left) i = do
    array ← deref as_handles p_h_bench_descs
    p_bd ← index descriptors i
    d ← deref as_description p_bd
    index array i
    assign as_handles p_h_bench_descs
        (handles (set array i (description_handle sizes i d.class_tag)))
    subscribe_loop descriptors p_h_bench_descs left (i + 1)

  unfoldable pub subscribe_benchmarks : Address → Address → ℕ → M P (Unit {0})
  unfolding subscribe_loop
  subscribe_benchmarks this p_h_bench_descs count = do
    throw_if (p_h_bench_descs == null) (
        engine_error "subscribeBenchmarks" 109 (codes "Invalid null parameter: `p_h_bench_descs`.")
          ecode_critical_error)
    e ← deref as_engine this
    throw_if (not (count == length e.descriptors)) (wrong_count (length e.descriptors) count)
    subscribe_loop e.descriptors p_h_bench_descs (min count (length e.descriptors)) 0
