-- ===== src/Params/Lengths.antt =====
-- The lengths of a generic workload, `Generic` of hebench/api_bridge/cpp/workload_params.hpp.
use api_bridge.Base.{ℕ, suc, ◌+◌, ◌^◌, ◌<◌, ◌≡◌, sym, ap, ◌∙◌, subst, arith}
use api_bridge.Text.{codes}
use api_bridge.Params.{Common, ok, err, validate, check_types}
use api_bridge.Params.Generic.{
  u64, n, m, length_input_param, put_length_input_param, length_result_component, index_error,
  validate_params, generic_from,
}
use api_bridge.Params.Validity.{Verdict, validate-Verdict}

-- The accessor for reading an input's length takes the index that is one too large: it gives the
-- first result's length there, where the accessor for writing throws.
pub length_input_param-at_n :
    (w_params : Common) (inputs results value : ℕ)
    → n w_params ≡ ok inputs
    → m w_params ≡ ok (suc results)
    → inputs + 2 < 2 ^ 64
    → (length_input_param inputs w_params ≡ length_result_component 0 w_params)
      × (put_length_input_param inputs value w_params
          ≡ err (index_error (codes "length_InputParam") inputs inputs))
unfolding length_input_param length_result_component put_length_input_param
length_input_param-at_n w_params inputs results value has_n has_m small =
    (ground (arith, has_n, has_m), ground (arith, has_n))

announced :
    (w_params : Common) (inputs results : ℕ)
    → n w_params ≡ ok inputs
    → m w_params ≡ ok results
    → validate_params w_params ≡ validate (u64 (u64 (inputs + results) + 2)) w_params
unfolding validate_params
announced w_params inputs results has_n has_m = ground (arith, has_n, has_m)

none_required : (w_params : Common) → validate 0 w_params ≡ ok tt
unfolding validate check_types
none_required w_params = ground arith

-- Parameters that announce lengths whose number, with the two counts, reaches exactly 2^64 pass
-- validation, whatever the list holds besides.
pub generic_from-wraps :
    (w_params : Common) (inputs results : ℕ)
    → n w_params ≡ ok inputs
    → m w_params ≡ ok results
    → inputs + results + 2 ≡ 2 ^ 64
    → generic_from w_params ≡ ok w_params
unfolding generic_from
generic_from-wraps w_params inputs results has_n has_m e =
    let wraps : u64 (u64 (inputs + results) + 2) ≡ 0 = omega arith in
    let passes : validate_params w_params ≡ ok tt =
      announced w_params inputs results has_n has_m
      ∙ ap (λ (k : ℕ). validate k w_params) wraps
      ∙ none_required w_params in
    ground (arith, passes)

-- Parameters whose announced lengths do not wrap are judged by that number: n + m + 2.
pub validate_params-Verdict :
    (w_params : Common) (inputs results : ℕ)
    → n w_params ≡ ok inputs
    → m w_params ≡ ok results
    → inputs + results + 2 < 2 ^ 64
    → Verdict (inputs + results + 2) w_params (validate_params w_params)
validate_params-Verdict w_params inputs results has_n has_m small =
    let number : u64 (u64 (inputs + results) + 2) ≡ inputs + results + 2 = omega arith in
    subst (Verdict (inputs + results + 2) w_params)
      (sym (
        announced w_params inputs results has_n has_m ∙ ap (λ (k : ℕ). validate k w_params) number))
      (validate-Verdict (inputs + results + 2) w_params)
