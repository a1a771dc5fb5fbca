-- ===== src/Params/Filled.antt =====
-- Lists of parameters that a constructor of hebench/api_bridge/cpp/workload_params.hpp fills with
-- unsigned integers, one after the other.
use api_bridge.Base.{
  ℕ, zero, suc, ◌+◌, ◌-◌, ◌<◌, ◌≤◌, ◌≡◌, refl, min, arith, some, [], ◌∷◌, ◌==◌, length, get_elem?,
  set as set_at, length-set, get_elem?-set_self, get_elem?-set_ne, get_elem?-of_lt, take, drop,
  Bool-cases, inl, inr, length-append, length-take, length-drop, length-replicate,
}
use api_bridge.Text.{Text}
use api_bridge.Types.{WorkloadParam, max_buffer_size}
use api_bridge.Types.ParamType
use api_bridge.Utilities.Laws.{terminated, write_string_lem}
use api_bridge.Params.{Common, ok, named, common, set_named_uint64, get, set_named, validate}
use api_bridge.Params.Access.{HasBuffers, buffer_at}
use api_bridge.Params.Validity.{validate-Verdict}

-- An unsigned integer of this value at an index.
abbrev pub IsValue : Common → ℕ → ℕ → Type 0
IsValue w_params i value =
    (p : WorkloadParam) × (get_elem? w_params i ≡ some p)
    × (p.data_type ≡ ParamType.uint64)
    × (p.value ≡ value)

-- The values below an index are those of a function.
pub record IsFilled (values : ℕ → ℕ) (end : ℕ) (w_params : Common) : Type 0 where
  pub buffers : HasBuffers w_params
  pub filled : (i : ℕ) → i < end → IsValue w_params i (values i)

set-HasBuffers :
    (w_params : Common) (i : ℕ) (p : WorkloadParam)
    → HasBuffers w_params
    → max_buffer_size ≤ length p.name
    → HasBuffers (set_at w_params i p)
set-HasBuffers [] i p has room = tt
set-HasBuffers (q ∷ rest) zero p has room = (room, has.1)
set-HasBuffers (q ∷ rest) (suc i) p has room = (has.0, set-HasBuffers rest i p has.1 room)

common-HasBuffers : (num_params : ℕ) → HasBuffers (common num_params)
common-HasBuffers zero = tt
common-HasBuffers (suc k) =
    (omega (arith, length-replicate {A = ℕ} max_buffer_size 0), common-HasBuffers k)

pub common-IsFilled : (values : ℕ → ℕ) (num_params : ℕ) → IsFilled values 0 (common num_params)
common-IsFilled values num_params = record {
  buffers = common-HasBuffers num_params;
  filled = λ i lt. absurd (omega arith);
}

pub get-IsValue :
    (w_params : Common) (i value : ℕ) → IsValue w_params i value → get i w_params ≡ ok value
unfolding get
get-IsValue w_params i value (p, at, type, same) = ground (arith, at, same)

-- The next parameter.
pub set_named-IsFilled :
    (values : ℕ → ℕ) (i value : ℕ) (name : Text) (w_params : Common)
    → IsFilled values i w_params
    → i < length w_params
    → value ≡ values i
    → (v : Common) × (set_named_uint64 i value name w_params ≡ ok v)
      × (length v ≡ length w_params)
      × IsFilled values (i + 1) v
unfolding set_named named
set_named-IsFilled values i value name w_params f lt e =
    let (old, at) = get_elem?-of_lt w_params i lt in
    let room = buffer_at w_params i old f.buffers at in
    let k = min max_buffer_size (length name + 1) - 1 in
    let written = terminated k name old.name in
    let new : WorkloadParam = record {
      data_type = ParamType.uint64;
      name = written;
      value = value;
    } in
    let fits : max_buffer_size ≤ length written = omega (
      arith,
      length-append (take k name) (0 ∷ drop (suc k) old.name),
      length-take k name,
      length-drop (suc k) old.name,
    ) in
    (
      set_at w_params i new,
      ground (arith, at, write_string_lem old.name max_buffer_size name),
      length-set w_params i new,
      record {
        buffers = set-HasBuffers w_params i new f.buffers fits;
        filled = λ j below. elim (Bool-cases (j == i)) [
          | inl same ↦
              (new, ground (arith, get_elem?-set_self w_params i new lt), refl, ground (arith, e))
          | inr apart ↦
              let (p, there, type, is) = f.filled j (ground arith) in
              (p, ground (arith, get_elem?-set_ne w_params i j new, there), type, is)
        ];
      },
    )

-- A list that is filled up to the number of its required parameters passes validation.
pub validate-IsFilled :
    (values : ℕ → ℕ) (end : ℕ) (w_params : Common)
    → IsFilled values end w_params
    → end ≤ length w_params
    → validate end w_params ≡ ok tt
validate-IsFilled values end w_params f room = elim (validate-Verdict end w_params) [
  | inl (few, throws) ↦ absurd (omega arith)
  | inr (inl (enough, (i, (le, lt, (p, at, bad), before), throws))) ↦
      let (q, there, type, is) = f.filled i lt in absurd (bad (ground (arith, at, there, type)))
  | inr (inr (enough, good, passes)) ↦ passes
]
