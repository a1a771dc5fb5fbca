-- ===== src/Params/Construction.antt =====
-- The constructors of hebench/api_bridge/cpp/workload_params.hpp: what they build is accepted by
-- the constructors that take parameters over, and reads back as what was given.
use api_bridge.Base.{
  ℕ, zero, suc, ◌+◌, ◌<◌, ◌≤◌, ◌≡◌, ◌^◌, refl, arith, ◌==◌, if◌then◌else◌, length, length-replicate,
  ◌++◌, ◌∙◌, subst, sym,
}
use api_bridge.Text.{Text, codes, to_string}
use api_bridge.Types.{zero_param}
use api_bridge.Params.{Common, ok, common, set_named_uint64}
use api_bridge.Params.Generic.{
  u64, n, m, set_lengths, generic, generic_from, length_input_param, length_result_component,
  validate_params,
}
use api_bridge.Params.VectorSize
use api_bridge.Params.SetIntersection
use api_bridge.Params.Fixed.{
  matrix_multiply, matrix_multiply_from, rows_m0, cols_m0, cols_m1, simple_set_intersection,
  simple_set_intersection_from, vector_size, vector_size_from,
}
use api_bridge.Params.Filled.{
  IsFilled, common-IsFilled, get-IsValue, set_named-IsFilled, validate-IsFilled,
}

module _ (values : ℕ → ℕ) where
  -- The loop of a constructor fills as many lengths as it has rounds.
  set_lengths-IsFilled :
      (left i base : ℕ) (name : Text) (w_params : Common)
      → IsFilled values (base + i) w_params
      → base + i + left ≤ length w_params
      → length w_params < 2 ^ 64
      → ((j : ℕ) → base ≤ j → j < base + i + left → values j ≡ 1)
      → (v : Common) × (set_lengths left i base name w_params ≡ ok v)
        × (length v ≡ length w_params)
        × IsFilled values (base + i + left) v
  unfolding set_lengths
  set_lengths-IsFilled zero i base name w_params f room small ones =
      (w_params, refl, refl, subst (λ k. IsFilled values k w_params) (omega arith) f)
  set_lengths-IsFilled (suc left) i base name w_params f room small ones =
      let index : u64 (base + i) ≡ base + i = omega arith in
      let (u, sets, same, g) =
        set_named-IsFilled values (base + i) 1 (name ++ to_string i) w_params f (omega arith)
          (sym (ones (base + i) (omega arith) (omega arith))) in
      let (v, runs, size, h) =
        set_lengths-IsFilled left (i + 1) base name u
          (subst (λ k. IsFilled values k u) (omega arith) g) (omega (arith, same))
          (omega (arith, same)) (λ j lo hi. ones j lo (omega arith)) in
      (
        v,
        ground (arith, index, sets, runs),
        size ∙ same,
        subst (λ k. IsFilled values k v) (omega arith) h,
      )

-- The values of a new generic workload.
abbrev generic_values : ℕ → ℕ → ℕ → ℕ
generic_values inputs results j = if j == 0 then inputs else if j == 1 then results else 1

generic-IsFilled :
    (inputs results : ℕ)
    → inputs + results + 2 < 2 ^ 64
    → (v : Common) × (generic inputs results ≡ ok v)
      × (length v ≡ inputs + results + 2)
      × IsFilled (generic_values inputs results) (inputs + results + 2) v
unfolding generic
generic-IsFilled inputs results small =
    let values = generic_values inputs results in
    let number : u64 (u64 (inputs + results) + 2) ≡ inputs + results + 2 = omega arith in
    let start = common (u64 (u64 (inputs + results) + 2)) in
    let zeros : length start ≡ inputs + results + 2 =
      length-replicate (u64 (u64 (inputs + results) + 2)) zero_param ∙ number in
    let (a, sets_a, size_a, filled_a) =
      set_named-IsFilled values 0 inputs (codes "n") start (common-IsFilled values _)
        (omega (arith, zeros)) refl in
    let (b, sets_b, size_b, filled_b) =
      set_named-IsFilled values 1 results (codes "m") a filled_a (omega (arith, zeros, size_a))
        refl in
    let (c, sets_c, size_c, filled_c) =
      set_lengths-IsFilled values inputs 0 2 (codes "length_InputParam") b filled_b
        (omega (arith, zeros, size_a, size_b)) (omega (arith, zeros, size_a, size_b))
        (λ j lo hi. ground arith) in
    let base : u64 (2 + inputs) ≡ 2 + inputs = omega arith in
    let (d, sets_d, size_d, filled_d) =
      set_lengths-IsFilled values results 0 (2 + inputs) (codes "length_ResultComponent") c
        (subst (λ k. IsFilled values k c) (omega arith) filled_c)
        (omega (arith, zeros, size_a, size_b, size_c))
        (omega (arith, zeros, size_a, size_b, size_c)) (λ j lo hi. ground arith) in
    (
      d,
      ground (arith, sets_a, sets_b, sets_c, base, sets_d),
      omega (arith, zeros, size_a, size_b, size_c, size_d),
      subst (λ k. IsFilled values k d) (omega arith) filled_d,
    )

-- A generic workload of `n` inputs and `m` results, where the number of its parameters is below
-- 2^64, is built with n + m + 2 parameters; it passes validation, reads back `n` and `m`, and every
-- length of an input and of a result is 1.
pub generic_from-generic :
    (inputs results : ℕ)
    → inputs + results + 2 < 2 ^ 64
    → (v : Common) × (generic inputs results ≡ ok v)
      × (length v ≡ inputs + results + 2)
      × (generic_from v ≡ ok v)
      × (n v ≡ ok inputs)
      × (m v ≡ ok results)
      × ((i : ℕ) → i < inputs → length_input_param i v ≡ ok 1)
      × ((j : ℕ) → j < results → length_result_component j v ≡ ok 1)
unfolding generic_from validate_params length_input_param length_result_component
generic_from-generic inputs results small =
    let values = generic_values inputs results in
    let (v, runs, size, f) = generic-IsFilled inputs results small in
    let has_n = get-IsValue v 0 inputs (f.filled 0 (omega arith)) in
    let has_m = get-IsValue v 1 results (f.filled 1 (omega arith)) in
    let number : u64 (u64 (inputs + results) + 2) ≡ inputs + results + 2 = omega arith in
    let passes = validate-IsFilled values (inputs + results + 2) v f (omega (arith, size)) in
    (
      v,
      runs,
      size,
      ground (arith, has_n, has_m, number, passes),
      has_n,
      has_m,
      λ i lt.
          let index : u64 (i + 2) ≡ i + 2 = omega arith in
          let one = get-IsValue v (i + 2) (values (i + 2)) (f.filled (i + 2) (omega arith)) in
          ground (arith, has_n, index, one),
      λ j lt.
          let index : u64 (u64 (j + inputs) + 2) ≡ j + inputs + 2 = omega arith in
          let one =
            get-IsValue v (j + inputs + 2) (values (j + inputs + 2))
              (f.filled (j + inputs + 2) (omega arith)) in
          ground (arith, has_n, has_m, index, one),
    )

-- The values of three parameters.
abbrev three_values : ℕ → ℕ → ℕ → ℕ → ℕ
three_values a b c j = if j == 0 then a else if j == 1 then b else c

-- Three parameters that are set one after the other.
three-IsFilled :
    (a b c : ℕ) (name_a name_b name_c : Text)
    → (u v w : Common) × (set_named_uint64 0 a name_a (common 3) ≡ ok u)
      × (set_named_uint64 1 b name_b u ≡ ok v)
      × (set_named_uint64 2 c name_c v ≡ ok w)
      × (length w ≡ 3)
      × IsFilled (three_values a b c) 3 w
three-IsFilled a b c name_a name_b name_c =
    let values = three_values a b c in
    let (u, sets_u, size_u, filled_u) =
      set_named-IsFilled values 0 a name_a (common 3) (common-IsFilled values 3) (omega arith)
        refl in
    let (v, sets_v, size_v, filled_v) =
      set_named-IsFilled values 1 b name_b u filled_u (omega (arith, size_u)) refl in
    let (w, sets_w, size_w, filled_w) =
      set_named-IsFilled values 2 c name_c v filled_v (omega (arith, size_u, size_v)) refl in
    (u, v, w, sets_u, sets_v, sets_w, omega (arith, size_u, size_v, size_w), filled_w)

-- The parameters of a matrix multiplication are accepted as such, and read back as given.
pub matrix_multiply_from-matrix_multiply :
    (rows cols inner : ℕ)
    → (v : Common) × (matrix_multiply rows cols inner ≡ ok v)
      × (matrix_multiply_from v ≡ ok v)
      × (rows_m0 v ≡ ok rows)
      × (cols_m0 v ≡ ok cols)
      × (cols_m1 v ≡ ok inner)
unfolding matrix_multiply matrix_multiply_from
matrix_multiply_from-matrix_multiply rows cols inner =
    let (u, t, v, sets_u, sets_t, sets_v, size, f) =
      three-IsFilled rows cols inner (codes "rows_M0") (codes "cols_M0") (codes "cols_M1") in
    let passes = validate-IsFilled (three_values rows cols inner) 3 v f (omega (arith, size)) in
    (
      v,
      ground (arith, sets_u, sets_t, sets_v),
      ground (arith, passes),
      get-IsValue v 0 rows (f.filled 0 (omega arith)),
      get-IsValue v 1 cols (f.filled 1 (omega arith)),
      get-IsValue v 2 inner (f.filled 2 (omega arith)),
    )

-- So are those of a set intersection.
pub simple_set_intersection_from-simple_set_intersection :
    (a b k : ℕ)
    → (v : Common) × (simple_set_intersection a b k ≡ ok v)
      × (simple_set_intersection_from v ≡ ok v)
      × (SetIntersection.n v ≡ ok a)
      × (SetIntersection.m v ≡ ok b)
      × (SetIntersection.k v ≡ ok k)
unfolding simple_set_intersection simple_set_intersection_from
simple_set_intersection_from-simple_set_intersection a b k =
    let (u, t, v, sets_u, sets_t, sets_v, size, f) =
      three-IsFilled a b k (codes "n") (codes "m") (codes "k") in
    let passes = validate-IsFilled (three_values a b k) 3 v f (omega (arith, size)) in
    (
      v,
      ground (arith, sets_u, sets_t, sets_v),
      ground (arith, passes),
      get-IsValue v 0 a (f.filled 0 (omega arith)),
      get-IsValue v 1 b (f.filled 1 (omega arith)),
      get-IsValue v 2 k (f.filled 2 (omega arith)),
    )

-- And the size of a vector.
pub vector_size_from-vector_size :
    (size : ℕ)
    → (v : Common) × (vector_size size ≡ ok v)
      × (vector_size_from v ≡ ok v)
      × (VectorSize.n v ≡ ok size)
unfolding vector_size vector_size_from
vector_size_from-vector_size size =
    let values : ℕ → ℕ = λ j. size in
    let (v, sets, count, f) =
      set_named-IsFilled values 0 size (codes "n") (common 1) (common-IsFilled values 1)
        (omega arith) refl in
    let passes = validate-IsFilled values 1 v f (omega (arith, count)) in
    (v, sets, ground (arith, passes), get-IsValue v 0 size (f.filled 0 (omega arith)))
