-- ===== src/Params/Validity.antt =====
-- Which parameters `validateParams` of hebench/api_bridge/cpp/workload_params.hpp accepts.
use api_bridge.Base.{
  ℕ, zero, suc, ◌+◌, ◌<◌, ◌≤◌, ◌≡◌, ◌≢◌, refl, arith, some, ◌==◌, subst, length, get_elem?,
  get_elem?-of_lt, ltb, Bool-cases, inl, inr, ◌⊎◌,
}
use api_bridge.Types.{WorkloadParam}
use api_bridge.Types.ParamType
use api_bridge.Params.{Common, Result, ok, err, too_few, wrong_type, check_types, validate}

-- The parameter at an index is an unsigned integer.
abbrev pub Unsigned : Common → ℕ → Type 0
Unsigned w_params i =
    (w_param : WorkloadParam) × (get_elem? w_params i ≡ some w_param)
    × (w_param.data_type ≡ ParamType.uint64)

-- The first parameter from `start` on, below `end`, that is no unsigned integer.
abbrev pub FirstWrong : Common → ℕ → ℕ → ℕ → Type 0
FirstWrong w_params start end i =
    (start ≤ i)
    × (i < end)
    × ((p : WorkloadParam) × (get_elem? w_params i ≡ some p) × (p.data_type ≢ ParamType.uint64))
    × ((j : ℕ) → start ≤ j → j < i → Unsigned w_params j)

-- What validation says: too few parameters, the first wrong one, or that all are right.
abbrev pub Verdict : ℕ → Common → Result (Unit {0}) → Type 0
Verdict required w_params r =
    ((length w_params < required) × (r ≡ err (too_few required)))
    ⊎ (((required ≤ length w_params)
          × ((i : ℕ) × FirstWrong w_params 0 required i × (r ≡ err (wrong_type i))))
        ⊎ ((required ≤ length w_params)
            × ((i : ℕ) → i < required → Unsigned w_params i)
            × (r ≡ ok tt)))

types_checked :
    (left i : ℕ) (w_params : Common)
    → i + left ≤ length w_params
    → ((k : ℕ) × FirstWrong w_params i (i + left) k
        × (check_types left i w_params ≡ err (wrong_type k)))
      ⊎ (((k : ℕ) → i ≤ k → k < i + left → Unsigned w_params k)
          × (check_types left i w_params ≡ ok tt))
unfolding check_types
types_checked zero i w_params room = inr (λ k le lt. absurd (omega arith), refl)
types_checked (suc left) i w_params room =
    let (p, at) = get_elem?-of_lt w_params i (omega arith) in
    elim (Bool-cases (p.data_type == ParamType.uint64)) [
      | inr wrong ↦ inl (
        i,
        (omega arith, omega arith, (p, at, ground arith), λ j le lt. absurd (omega arith)),
        ground (arith, at),
      )
      | inl right ↦
          let here : Unsigned w_params i = (p, at, ground arith) in
          elim (types_checked left (i + 1) w_params (omega arith)) [
            | inl (k, (le, lt, bad, before), throws) ↦ inl (
              k,
              (omega arith, omega arith, bad, from i w_params here k before),
              ground (arith, at, throws),
            )
            | inr (good, passes) ↦ inr (
              λ k le lt.
                  from i w_params here (i + suc left) (λ j lo hi. good j lo (omega arith)) k le lt,
              ground (arith, at, passes),
            )
          ]
    ]
  where
    from :
        (i : ℕ) (w_params : Common)
        → Unsigned w_params i
        → (k : ℕ) → ((j : ℕ) → i + 1 ≤ j → j < k → Unsigned w_params j)
        → (j : ℕ) → i ≤ j
        → j < k
        → Unsigned w_params j
    from i w_params here k before j le lt = elim (Bool-cases (j == i)) [
      | inl same ↦ subst (Unsigned w_params) (ground arith) here
      | inr apart ↦ before j (ground arith) lt
    ]

-- Validation for a number of required parameters says, of any parameters: that there are too few, or
-- else which is the first of the required ones that is no unsigned integer, or else, with no
-- exception, that all the required ones are there and unsigned.
pub validate-Verdict :
    (required : ℕ) (w_params : Common) → Verdict required w_params (validate required w_params)
unfolding validate
validate-Verdict required w_params = elim (Bool-cases (ltb (length w_params) required)) [
  | inl few ↦ inl (ground arith, ground arith)
  | inr enough ↦
      let room : required ≤ length w_params = ground arith in
      elim (types_checked required 0 w_params (omega arith)) [
        | inl (k, (le, lt, bad, before), throws) ↦
            inr (inl (room, (k, (le, omega arith, bad, before), ground (arith, throws))))
        | inr (good, passes) ↦
            inr (inr (room, (λ i lt. good i (omega arith) (omega arith)), ground (arith, passes)))
      ]
]
