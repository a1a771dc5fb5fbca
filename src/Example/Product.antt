-- ===== src/Example/Product.antt =====
-- The product of matrices that the loops of `operate` compute, of
-- api_bridge_example_backend/src/ex_benchmark.cpp.
use api_bridge.Base.{ℕ, zero, suc, ◌+◌, ◌<◌, ◌≡◌, arith, List, [], ◌∙◌, ap}
use api_bridge.Example.Matrix.{
  Matrix, dim, get_or, entry, dot_loop, row_loop, product_loop, product,
}

module _ (add mul : ℕ → ℕ → ℕ) where
  -- The sum of the first terms of a sequence, from 0 and in order.
  abbrev pub sum : ℕ → (ℕ → ℕ) → ℕ
  sum zero term = 0
  sum (suc k) term = add (sum k term) (term k)

  abbrev term : Matrix → Matrix → ℕ → ℕ → ℕ → ℕ
  term m0 m1 row col k = mul (entry m0 row k) (entry m1 k col)

  -- The loop adds the terms from `i` on to what it has.
  dot_loop_lem :
      (m0 m1 : Matrix) (row col left i : ℕ)
      → dot_loop add mul m0 m1 row col left i (sum i (term m0 m1 row col))
        ≡ sum (i + left) (term m0 m1 row col)
  unfolding dot_loop
  dot_loop_lem m0 m1 row col zero i = ap (λ (k : ℕ). sum k (term m0 m1 row col)) (omega arith)
  dot_loop_lem m0 m1 row col (suc left) i =
      ap
        (λ (k : ℕ).
          dot_loop add mul m0 m1 row col left k
            (add (sum i (term m0 m1 row col)) (term m0 m1 row col i)))
        (omega arith)
      ∙ dot_loop_lem m0 m1 row col left (suc i)
      ∙ ap (λ (k : ℕ). sum k (term m0 m1 row col)) (omega arith)

  row_loop_lem :
      (m0 m1 : Matrix) (terms row left col c : ℕ)
      → c < left
      → get_or (row_loop add mul m0 m1 terms row left col) c 0
        ≡ sum terms (term m0 m1 row (col + c))
  unfolding row_loop
  row_loop_lem m0 m1 terms row zero col c lt = absurd (omega arith)
  row_loop_lem m0 m1 terms row (suc left) col zero lt =
      dot_loop_lem m0 m1 row col terms 0
      ∙ ap (λ (k : ℕ). sum k (term m0 m1 row col)) (omega arith)
      ∙ ap (λ (k : ℕ). sum terms (term m0 m1 row k)) (omega arith)
  row_loop_lem m0 m1 terms row (suc left) col (suc c) lt =
      row_loop_lem m0 m1 terms row left (col + 1) c (omega arith)
      ∙ ap (λ (k : ℕ). sum terms (term m0 m1 row k)) (omega arith)

  product_loop_lem :
      (m0 m1 : Matrix) (terms left row r : ℕ)
      → r < left
      → get_or (product_loop add mul m0 m1 terms left row) r []
        ≡ row_loop add mul m0 m1 terms (row + r) terms 0
  unfolding product_loop
  product_loop_lem m0 m1 terms zero row r lt = absurd (omega arith)
  product_loop_lem m0 m1 terms (suc left) row zero lt =
      ap (λ (k : ℕ). row_loop add mul m0 m1 terms k terms 0) (omega arith)
  product_loop_lem m0 m1 terms (suc left) row (suc r) lt =
      product_loop_lem m0 m1 terms left (row + 1) r (omega arith)
      ∙ ap (λ (k : ℕ). row_loop add mul m0 m1 terms k terms 0) (omega arith)

  -- Each entry of the product is the sum, in order and from 0, of the products of the entries of its
  -- row in the first matrix and of its column in the second.
  pub entry-product :
      (m0 m1 : Matrix) (r c : ℕ)
      → r < dim
      → c < dim
      → entry (product add mul m0 m1) r c ≡ sum dim (λ k. mul (entry m0 r k) (entry m1 k c))
  unfolding product
  entry-product m0 m1 r c r_lt c_lt =
      ap (λ (row : List ℕ). get_or row c 0) (product_loop_lem m0 m1 dim dim 0 r r_lt)
      ∙ row_loop_lem m0 m1 dim (0 + r) dim 0 c c_lt
      ∙ ap (λ (k : ℕ). sum dim (term m0 m1 k (0 + c))) (omega arith)
      ∙ ap (λ (k : ℕ). sum dim (term m0 m1 r k)) (omega arith)
