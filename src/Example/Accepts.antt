-- ===== src/Example/Accepts.antt =====
-- The workload parameters that the example benchmark accepts, of
-- api_bridge_example_backend/src/ex_benchmark.cpp.
use api_bridge.Base.{ℕ, ◌<◌, ◌≤◌, ◌≡◌, arith, length, inl, inr, ◌↔◌}
use api_bridge.Params.{Common, ok, get}
use api_bridge.Params.Fixed.{matrix_multiply_from}
use api_bridge.Params.Validity.{Unsigned, validate-Verdict}
use api_bridge.Example.Matrix.{dim}
use api_bridge.Example.Workload.{check_workload}

-- Three unsigned parameters, and more after them, whose values are the dimensions of the example.
abbrev pub Fits : Common → Type 0
Fits w_params =
    (3 ≤ length w_params)
    × ((i : ℕ) → i < 3 → Unsigned w_params i)
    × (get 0 w_params ≡ ok dim)
    × (get 1 w_params ≡ ok dim)
    × (get 2 w_params ≡ ok dim)

Fits-accepted : (w_params : Common) → Fits w_params → check_workload w_params ≡ ok tt
unfolding check_workload matrix_multiply_from
Fits-accepted w_params (room, types, a, b, c) = elim (validate-Verdict 3 w_params) [
  | inl (few, throws) ↦ absurd (omega arith)
  | inr (inl (enough, (i, (le, lt, (p, at, bad), before), throws))) ↦
      let (q, there, right) = types i lt in absurd (bad (ground (arith, at, there, right)))
  | inr (inr (enough, good, passes)) ↦ ground (arith, passes, a, b, c)
]

accepted-Fits : (w_params : Common) → check_workload w_params ≡ ok tt → Fits w_params
unfolding check_workload matrix_multiply_from
accepted-Fits w_params e = elim (validate-Verdict 3 w_params) [
  | inl (few, throws) ↦ absurd (ground (arith, e, throws))
  | inr (inl (enough, (i, wrong, throws))) ↦ absurd (ground (arith, e, throws))
  | inr (inr (enough, good, passes)) ↦ (
    enough,
    good,
    ground (arith, e, passes),
    ground (arith, e, passes),
    ground (arith, e, passes),
  )
]

-- The benchmark accepts parameters exactly if the first three are there, are unsigned integers and
-- are the rows, columns and inner dimension 100.
pub check_workload-Fits : (w_params : Common) → (check_workload w_params ≡ ok tt) ↔ Fits w_params
check_workload-Fits w_params = (accepted-Fits w_params, Fits-accepted w_params)
