-- ===== src/Example/Session/Squares.antt =====
-- The size of the matrices of api_bridge_example_backend/src/ex_benchmark.cpp.
use api_bridge.Base.{
  ℕ, zero, suc, ◌+◌, ◌*◌, ◌<◌, ◌≡◌, refl, arith, [], ◌∷◌, length, length-append, ◌∙◌, ap,
}
use api_bridge.Example.Matrix.{Matrix, dim, row_loop, product_loop, product}
use api_bridge.Example.Samples.{flatten, HasWidth}
use api_bridge.Example.Session.Encodes.{IsSquare}

pub length-flatten :
    (mat : Matrix) (width : ℕ) → HasWidth width mat → length (flatten mat) ≡ length mat * width
length-flatten [] width has = omega arith
length-flatten (row ∷ rows) width has =
    omega (arith, has.0, length-append row (flatten rows), length-flatten rows width has.1)

pub dim_pos : 0 < dim
unfolding dim
dim_pos = omega arith

pub IsSquare-length : (mat : Matrix) → IsSquare mat → length (flatten mat) ≡ dim * dim
IsSquare-length mat (height, width) = length-flatten mat dim width ∙ ap (λ (n : ℕ). n * dim) height

pub area_pos : 0 < dim * dim
unfolding dim
area_pos = omega arith

module _ (add mul : ℕ → ℕ → ℕ) where
  length-row_loop :
      (m0 m1 : Matrix) (terms row left col : ℕ)
      → length (row_loop add mul m0 m1 terms row left col) ≡ left
  unfolding row_loop
  length-row_loop m0 m1 terms row zero col = refl
  length-row_loop m0 m1 terms row (suc left) col =
      omega (arith, length-row_loop m0 m1 terms row left (col + 1))

  product_loop-shape :
      (m0 m1 : Matrix) (terms left row : ℕ)
      → (length (product_loop add mul m0 m1 terms left row) ≡ left)
        × HasWidth terms (product_loop add mul m0 m1 terms left row)
  unfolding product_loop
  product_loop-shape m0 m1 terms zero row = (refl, tt)
  product_loop-shape m0 m1 terms (suc left) row =
      let (height, width) = product_loop-shape m0 m1 terms left (row + 1) in
      (omega (arith, height), (length-row_loop m0 m1 terms row terms 0, width))

  pub product-IsSquare : (m0 m1 : Matrix) → IsSquare (product add mul m0 m1)
  unfolding product
  product-IsSquare m0 m1 = product_loop-shape m0 m1 dim dim 0
