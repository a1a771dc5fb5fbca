-- ===== src/Tests/Params.antt =====
-- Workload parameters at work.
use api_bridge.Base.{
  ℕ, ◌+◌, ◌<◌, ◌≡◌, refl, arith, some, [], ◌∷◌, ◌==◌, if◌then◌else◌, length, get_elem?,
}
use api_bridge.Text.{codes}
use api_bridge.Types.{WorkloadParam, zero_param}
use api_bridge.Types.ParamType
use api_bridge.Params.{Common, ok, err, set_named, get, validate}
use api_bridge.Params.Generic.{
  validate_params, generic_from, length_input_param, length_result_component,
  put_length_input_param, index_error, n, m, generic,
}
use api_bridge.Params.Construction.{generic_from-generic}
use api_bridge.Params.Access.{get-set_named}
use api_bridge.Params.Validity.{Verdict, validate-Verdict}
use api_bridge.Params.Lengths.{length_input_param-at_n, generic_from-wraps, validate_params-Verdict}

abbrev pub unsigned : ℕ → WorkloadParam
unsigned value = record (zero_param) { data_type = ParamType.uint64; value = value }

-- One input of length 3 and one result of length 4.
abbrev one_one : Common
one_one = unsigned 1 ∷ unsigned 1 ∷ unsigned 3 ∷ unsigned 4 ∷ []

-- Two parameters that announce 2^64 - 2 inputs.
abbrev huge : Common
huge = unsigned 0xffff_ffff_ffff_fffe ∷ unsigned 0 ∷ []

get-set_named_example :
    (v : Common) × (w_param : WorkloadParam) × (set_named 2 1 9 (65 ∷ []) one_one ≡ ok v)
    × (length v ≡ 4)
    × (get_elem? v 1 ≡ some w_param)
    × (w_param.data_type ≡ 2)
    × ((j : ℕ) → get j v ≡ (if j == 1 then ok 9 else get j one_one))
get-set_named_example = get-set_named 2 1 9 (65 ∷ []) one_one (omega arith) (omega arith)

n_of_one : get 0 one_one ≡ ok 1
unfolding get
n_of_one = refl

m_of_one : get 1 one_one ≡ ok 1
unfolding get
m_of_one = refl

n_of_huge : get 0 huge ≡ ok 0xffff_ffff_ffff_fffe
unfolding get
n_of_huge = refl

m_of_huge : get 1 huge ≡ ok 0
unfolding get
m_of_huge = refl

length_input_param-at_n_example :
    (length_input_param 1 one_one ≡ length_result_component 0 one_one)
    × (put_length_input_param 1 7 one_one ≡ err (index_error (codes "length_InputParam") 1 1))
length_input_param-at_n_example =
    length_input_param-at_n one_one 1 0 7 n_of_one m_of_one (omega arith)

generic_from-wraps_example : generic_from huge ≡ ok huge
generic_from-wraps_example =
    generic_from-wraps huge 0xffff_ffff_ffff_fffe 0 n_of_huge m_of_huge (omega arith)

validate_params-Verdict_example : Verdict 4 one_one (validate_params one_one)
validate_params-Verdict_example =
    validate_params-Verdict one_one 1 1 n_of_one m_of_one (omega arith)

validate-Verdict_example : Verdict 3 one_one (validate 3 one_one)
validate-Verdict_example = validate-Verdict 3 one_one

generic_from-generic_example :
    (v : Common) × (generic 2 1 ≡ ok v)
    × (length v ≡ 2 + 1 + 2)
    × (generic_from v ≡ ok v)
    × (n v ≡ ok 2)
    × (m v ≡ ok 1)
    × ((i : ℕ) → i < 2 → length_input_param i v ≡ ok 1)
    × ((j : ℕ) → j < 1 → length_result_component j v ≡ ok 1)
generic_from-generic_example = generic_from-generic 2 1 (omega arith)
