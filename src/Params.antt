-- ===== src/Params.antt =====
-- The workload parameter wrappers of hebench/api_bridge/cpp/workload_params.hpp. This module is
-- the class `Common`, a vector of parameters; the children are the workloads.
pub mod Fixed
pub mod VectorSize
pub mod SetIntersection
pub mod Generic
pub mod Access
pub mod Validity
pub mod Lengths
pub mod Filled
pub mod Construction
use api_bridge.Base.{
  ℕ, zero, suc, ◌+◌, Bool, true, false, Option, none, some, List, [], ◌∷◌, ◌++◌, ltb, ◌==◌,
  if◌then◌else◌, length, get_elem?, set as set_at, replicate,
}
use api_bridge.Text.{Text, codes, to_string}
use api_bridge.Types.{WorkloadParam, zero_param, max_buffer_size}
use api_bridge.Types.ParamType
use api_bridge.Memory.{Exception, standard, library, out_of_range, logic_error}
use api_bridge.Utilities.{write_string}

-- What a member function or a constructor does: it returns, throws, or is undefined.
pub data Result (A : Type 0) : Type 0 where
  ok : A → Result A
  err : Exception → Result A
  undefined : Result A

infixl 5 ◌>>=◌ ◌>>◌
abbrev pub ◌>>=◌ : {A B : Type 0} → Result A → (A → Result B) → Result B
ok a >>= f = f a
err e >>= f = err e
undefined >>= f = undefined

abbrev pub ◌>>◌ : {A B : Type 0} → Result A → Result B → Result B
m >> k = m >>= λ _. k

abbrev pub or_throw : {A : Type 0} → Option A → Exception → Result A
or_throw none e = err e
or_throw (some a) e = ok a

abbrev pub or_undefined : {A : Type 0} → Option A → Result A
or_undefined none = undefined
or_undefined (some a) = ok a

abbrev pub throw_if : Bool → Exception → Result (Unit {0})
throw_if b e = if b then err e else ok tt

abbrev pub Common : Type 0
Common = List WorkloadParam

-- `std::vector::at`
abbrev pub at : {A : Type 0} → List A → ℕ → Result A
at xs i = or_throw (get_elem? xs i) (library out_of_range)

-- `Common(std::size_t num_params)`: zeroed parameters.
abbrev pub common : ℕ → Common
common num_params = replicate num_params zero_param

-- The three types that the templates are specialised to, by their enumerator. The value is the
-- 64 bits that the member of the union takes.
unfoldable pub named : ℕ → ℕ → Text → WorkloadParam → Result WorkloadParam
named type value name p = do
  written ← or_undefined (write_string p.name max_buffer_size name)
  ok (record { data_type = type; name = written; value = value })

unfoldable pub add : ℕ → ℕ → Text → Common → Result Common
unfolding named
add type value name w_params = do
  w_param ← named type value name zero_param
  ok (w_params ++ w_param ∷ [])

unfoldable pub set_named : ℕ → ℕ → ℕ → Text → Common → Result Common
unfolding named
set_named type index value name w_params = do
  w_param ← at w_params index
  new ← named type value name w_param
  ok (set_at w_params index new)

unfoldable pub set : ℕ → ℕ → ℕ → Common → Result Common
set type index value w_params = do
  w_param ← at w_params index
  ok (set_at w_params index (record w_param { data_type = type; value = value }))

unfoldable pub get : ℕ → Common → Result ℕ
get index w_params = do w_param ← at w_params index; ok w_param.value

-- The specialisations read the same eight bytes as another type.
abbrev pub get_int64 : ℕ → Common → Result ℕ
get_int64 = get

abbrev pub get_double : ℕ → Common → Result ℕ
get_double = get

unfoldable pub get_name : ℕ → Common → Result Text
get_name index w_params = do w_param ← at w_params index; ok w_param.name

-- `m_w_params.at(index).u_param = value`, through the reference that an accessor returns.
unfoldable pub put : ℕ → ℕ → Common → Result Common
put index value w_params = do
  w_param ← at w_params index
  ok (set_at w_params index (record w_param { value = value }))

-- The specialisations.
abbrev pub add_int64 : ℕ → Text → Common → Result Common
add_int64 = add ParamType.int64

abbrev pub set_named_int64 : ℕ → ℕ → Text → Common → Result Common
set_named_int64 = set_named ParamType.int64

abbrev pub set_int64 : ℕ → ℕ → Common → Result Common
set_int64 = set ParamType.int64

abbrev pub add_uint64 : ℕ → Text → Common → Result Common
add_uint64 = add ParamType.uint64

abbrev pub set_named_uint64 : ℕ → ℕ → Text → Common → Result Common
set_named_uint64 = set_named ParamType.uint64

abbrev pub set_uint64 : ℕ → ℕ → Common → Result Common
set_uint64 = set ParamType.uint64

abbrev pub add_double : ℕ → Text → Common → Result Common
add_double = add ParamType.float64

abbrev pub set_named_double : ℕ → ℕ → Text → Common → Result Common
set_named_double = set_named ParamType.float64

abbrev pub set_double : ℕ → ℕ → Common → Result Common
set_double = set ParamType.float64

abbrev pub too_few : ℕ → Exception
too_few required =
    standard out_of_range
      (codes "Workload requires, at least, " ++ (to_string required ++ codes " parameters."))

abbrev pub wrong_type : ℕ → Exception
wrong_type i = standard logic_error (
    codes "Data type for workload parameter "
    ++ (to_string i ++ codes " must be WorkloadParamType::UInt64."))

-- The loop of `validateParams` at index `i`, with `left` rounds left.
unfoldable pub check_types : ℕ → ℕ → Common → Result (Unit {0})
check_types zero i w_params = ok tt
check_types (suc left) i w_params = do
  w_param ← or_undefined (get_elem? w_params i)
  throw_if (if w_param.data_type == ParamType.uint64 then false else true) (wrong_type i)
  check_types left (i + 1) w_params

unfoldable pub validate : ℕ → Common → Result (Unit {0})
unfolding check_types
validate required w_params = do
  throw_if (ltb (length w_params) required) (too_few required)
  check_types required 0 w_params
