-- ===== src/Benchmark/Defaults.antt =====
-- The default sets of parameters that the constructor of a class derived from `BenchmarkDescription`
-- of hebench/api_bridge/src/benchmark.cpp adds to it.
use api_bridge.Base.{
  ℕ, ◌≡◌, ◌≢◌, ◌⊎◌, ◌∙◌, inl, inr, refl, sym, ap, arith, Bool-cases, List, [], ◌∷◌, ◌++◌, ◌==◌,
  length, append_assoc, append-nil,
}
use api_bridge.Text.{Text, codes}
use api_bridge.Types.{WorkloadParam}
use api_bridge.Memory.{Description, standard, invalid_argument}
use api_bridge.Params.{Result, ok, err, undefined, ◌>>=◌}
use api_bridge.Benchmark.Description.{add_default_parameters, front_size}

-- The calls of `addDefaultParameters` that a constructor makes, one after another.
abbrev pub add_all : Description → List (List WorkloadParam) → Result Description
add_all this [] = ok this
add_all this (set ∷ sets) = do d ← add_default_parameters this set; add_all d sets

-- Every set has that many parameters.
abbrev pub AllOf : ℕ → List (List WorkloadParam) → Type 0
AllOf n [] = Unit {0}
AllOf n (set ∷ sets) = (length set ≡ n) × AllOf n sets

abbrev other_size : Text
other_size = codes "Size of new default set of arguments differs from other existing default sets."

abbrev pub refusal : Result Description
refusal = err (standard invalid_argument other_size)

-- A description with these sets.
abbrev pub with_sets : Description → List (List WorkloadParam) → Description
with_sets this sets = record this { default_params = sets }

module _ (this : Description) (first : List WorkloadParam) where
  add_same :
      (rest : List (List WorkloadParam)) (set : List WorkloadParam)
      → length set ≡ length first
      → add_default_parameters (with_sets this (first ∷ rest)) set
        ≡ ok (with_sets this (first ∷ (rest ++ set ∷ [])))
  unfolding add_default_parameters
  add_same rest set same = ground (arith, same)

  add_other :
      (rest : List (List WorkloadParam)) (set : List WorkloadParam)
      → length set ≢ length first
      → add_default_parameters (with_sets this (first ∷ rest)) set ≡ refusal
  unfolding add_default_parameters
  add_other rest set other = ground (arith, other)

  -- More sets behind a first one.
  add_more :
      (rest sets : List (List WorkloadParam))
      → (AllOf (length first) sets
          × (add_all (with_sets this (first ∷ rest)) sets
              ≡ ok (with_sets this (first ∷ (rest ++ sets)))))
        ⊎ ((AllOf (length first) sets → ⊥)
            × (add_all (with_sets this (first ∷ rest)) sets ≡ refusal))
  add_more rest [] = inl (tt, ap (λ xs. ok (with_sets this (first ∷ xs))) (sym (append-nil rest)))
  add_more rest (set ∷ sets) = elim (Bool-cases (length set == length first)) [
    | inl t ↦ elim (add_more (rest ++ set ∷ []) sets) [
      | inl (all, runs) ↦ inl (
        (ground (arith, t), all),
        ap (λ r. r >>= λ d. add_all d sets) (add_same rest set (ground (arith, t)))
            ∙ runs
            ∙ ap (λ xs. ok (with_sets this (first ∷ xs))) (append_assoc rest (set ∷ []) sets),
      )
      | inr (other, runs) ↦ inr (
        λ all. other all.1,
        ap (λ r. r >>= λ d. add_all d sets) (add_same rest set (ground (arith, t))) ∙ runs,
      )
    ]
    | inr f ↦ inr (
      λ all. ground (arith, f, all.0),
      ap (λ r. r >>= λ d. add_all d sets) (add_other rest set (ground (arith, f))),
    )
  ]

add_first :
    (this : Description) (first : List WorkloadParam)
    → this.default_params ≡ []
    → add_default_parameters this first ≡ ok (with_sets this (first ∷ []))
unfolding add_default_parameters
add_first this first e = ground (arith, e)

-- Of any sets that a constructor adds to a description without any: either all have as many
-- parameters as the first, and the description then has exactly these sets, in this order, and is
-- the same otherwise; or some has another number, and the constructor throws.
pub add_all-AllOf :
    (this : Description) (sets : List (List WorkloadParam))
    → this.default_params ≡ []
    → (AllOf (front_size sets) sets × (add_all this sets ≡ ok (with_sets this sets)))
      ⊎ ((AllOf (front_size sets) sets → ⊥) × (add_all this sets ≡ refusal))
add_all-AllOf this [] e = inl (tt, ap (λ xs. ok (with_sets this xs)) e)
add_all-AllOf this (first ∷ sets) e =
    let starts = ap (λ r. r >>= λ d. add_all d sets) (add_first this first e) in
    elim (add_more this first [] sets) [
      | inl (all, runs) ↦ inl ((refl, all), starts ∙ runs)
      | inr (other, runs) ↦ inr (λ all. other all.1, starts ∙ runs)
    ]

-- The default sets of a description that a constructor has made.
abbrev sets_of : Result Description → List (List WorkloadParam)
sets_of (ok d) = d.default_params
sets_of (err e) = []
sets_of undefined = []

-- Where the additions end without an exception, the description has these sets.
pub added :
    (blank d : Description) (sets : List (List WorkloadParam))
    → blank.default_params ≡ []
    → add_all blank sets ≡ ok d
    → AllOf (front_size sets) sets × (d.default_params ≡ sets)
added blank d sets none_yet adds = elim (add_all-AllOf blank sets none_yet) [
  | inl (all, runs) ↦ (all, ap sets_of (sym adds ∙ runs))
  | inr (other, runs) ↦ absurd (cc)
]
