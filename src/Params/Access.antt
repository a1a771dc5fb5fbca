-- ===== src/Params/Access.antt =====
-- Reading and writing the parameters of `Common` of hebench/api_bridge/cpp/workload_params.hpp.
use api_bridge.Base.{
  ℕ, zero, suc, ◌+◌, ◌-◌, ◌<◌, ◌≤◌, ◌≡◌, refl, min, arith, some, [], ◌∷◌, ◌==◌, if◌then◌else◌,
  length, get_elem?, set as set_at, length-set, get_elem?-set_self, get_elem?-set_ne,
  get_elem?-of_lt, get_elem?-eq_none, Bool-cases, inl, inr,
}
use api_bridge.Text.{Text}
use api_bridge.Types.{WorkloadParam, max_buffer_size}
use api_bridge.Memory.{library, out_of_range}
use api_bridge.Utilities.Laws.{terminated, write_string_lem}
use api_bridge.Params.{Common, ok, err, named, set_named, set, get, put}

-- Every name's buffer has its fixed size, at least.
abbrev pub HasBuffers : Common → Type 0
HasBuffers [] = Unit {0}
HasBuffers (w_param ∷ rest) = (max_buffer_size ≤ length w_param.name) × HasBuffers rest

pub buffer_at :
    (w_params : Common) (i : ℕ) (w_param : WorkloadParam)
    → HasBuffers w_params
    → get_elem? w_params i ≡ some w_param
    → max_buffer_size ≤ length w_param.name
buffer_at [] i w_param has e = cc
buffer_at (p ∷ rest) zero w_param has e = ground (arith, has.0)
buffer_at (p ∷ rest) (suc i) w_param has e = buffer_at rest i w_param has.1 e

get-set_at :
    (w_params : Common) (i j : ℕ) (w_param : WorkloadParam)
    → i < length w_params
    → get j (set_at w_params i w_param) ≡ (if j == i then ok w_param.value else get j w_params)
unfolding get
get-set_at w_params i j w_param lt = elim (Bool-cases (j == i)) [
  | inl same ↦ ground (arith, get_elem?-set_self w_params i w_param lt)
  | inr apart ↦ ground (arith, get_elem?-set_ne w_params i j w_param)
]

-- Setting a parameter that is there, by type, value and name, succeeds on buffers of the fixed
-- size: the parameter then has that type and value, every other one reads as before, and there are
-- as many as before.
pub get-set_named :
    (type i value : ℕ) (name : Text) (w_params : Common)
    → i < length w_params
    → HasBuffers w_params
    → (v : Common) × (w_param : WorkloadParam) × (set_named type i value name w_params ≡ ok v)
      × (length v ≡ length w_params)
      × (get_elem? v i ≡ some w_param)
      × (w_param.data_type ≡ type)
      × ((j : ℕ) → get j v ≡ (if j == i then ok value else get j w_params))
unfolding set_named named
get-set_named type i value name w_params lt has =
    let (old, at) = get_elem?-of_lt w_params i lt in
    let room = buffer_at w_params i old has at in
    let written = terminated (min max_buffer_size (length name + 1) - 1) name old.name in
    let new : WorkloadParam = record { data_type = type; name = written; value = value } in
    (
      set_at w_params i new,
      new,
      ground (arith, at, write_string_lem old.name max_buffer_size name),
      length-set w_params i new,
      get_elem?-set_self w_params i new lt,
      refl,
      λ j. get-set_at w_params i j new lt,
    )

-- Setting a parameter that is not there throws what `std::vector::at` throws, by every setter.
pub set-out_of_range :
    (type i value : ℕ) (name : Text) (w_params : Common)
    → length w_params ≤ i
    → (set_named type i value name w_params ≡ err (library out_of_range))
      × (set type i value w_params ≡ err (library out_of_range))
      × (put i value w_params ≡ err (library out_of_range))
unfolding set_named set put
set-out_of_range type i value name w_params le =
    let missing = get_elem?-eq_none w_params i le in
    (ground (arith, missing), ground (arith, missing), ground (arith, missing))
