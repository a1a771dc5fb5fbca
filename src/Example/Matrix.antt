-- ===== src/Example/Matrix.antt =====
-- `struct Matrix` of api_bridge_example_backend/include/ex_benchmark.h, an array of rows, and the
-- loops of api_bridge_example_backend/src/ex_benchmark.cpp on it.
use api_bridge.Base.{
  ℕ, zero, suc, ◌+◌, ◌-◌, min, Option, none, some, List, [], ◌∷◌, ◌++◌, ltb, leb, if◌then◌else◌,
  length, get_elem?, take, drop,
}
use api_bridge.Memory.{bind?}

-- The number of rows and of columns.
unfoldable pub dim : ℕ
dim = 100

abbrev pub Matrix : Type 0
Matrix = List (List ℕ)

-- `rows[r][c]`. Both indices are below `dim` wherever the code reads.
abbrev pub get_or : {A : Type 0} → List A → ℕ → A → A
get_or xs i d = elim (get_elem? xs i) [ none ↦ d | some x ↦ x ]

abbrev pub entry : Matrix → ℕ → ℕ → ℕ
entry mat r c = get_or (get_or mat r []) c 0

-- The loop of `encode` on rows, with `left` rows left: a row is the next `width` doubles of the
-- sample, `none` where the sample ends too early.
unfoldable pub read_rows : ℕ → ℕ → List ℕ → Option Matrix
read_rows zero width sample = some []
read_rows (suc left) width sample =
    let rest =
      bind? (read_rows left width (drop width sample)) (λ rows. some (take width sample ∷ rows)) in
    if leb width (length sample) then rest else none

-- The loop of `decode` on rows, at `offset` in a buffer of `sample_elem_count` doubles; `none`
-- where it would write behind the buffer.
unfoldable pub write_rows : Matrix → ℕ → ℕ → List ℕ → Option (List ℕ)
write_rows [] offset sample_elem_count buffer = some buffer
write_rows (row ∷ rows) offset sample_elem_count buffer =
    let num_elems_to_copy = min (length row) (sample_elem_count - offset) in
    let rest = write_rows rows (offset + num_elems_to_copy) sample_elem_count (
      take offset buffer
      ++ (take num_elems_to_copy row ++ drop (offset + num_elems_to_copy) buffer)) in
    if ltb offset sample_elem_count
    then (if leb (offset + num_elems_to_copy) (length buffer) then rest else none)
    else some buffer

module _ (add mul : ℕ → ℕ → ℕ) where
  -- The innermost loop of `operate`, at `i` with `left` rounds left.
  unfoldable pub dot_loop : Matrix → Matrix → ℕ → ℕ → ℕ → ℕ → ℕ → ℕ
  dot_loop m0 m1 row col zero i val = val
  dot_loop m0 m1 row col (suc left) i val =
      dot_loop m0 m1 row col left (i + 1) (add val (mul (entry m0 row i) (entry m1 i col)))

  -- The loop on columns, at `col`; each round writes one entry of the row.
  unfoldable pub row_loop : Matrix → Matrix → ℕ → ℕ → ℕ → ℕ → List ℕ
  row_loop m0 m1 terms row zero col = []
  row_loop m0 m1 terms row (suc left) col =
      dot_loop m0 m1 row col terms 0 0 ∷ row_loop m0 m1 terms row left (col + 1)

  -- The loop on rows, at `row`.
  unfoldable pub product_loop : Matrix → Matrix → ℕ → ℕ → ℕ → Matrix
  product_loop m0 m1 terms zero row = []
  product_loop m0 m1 terms (suc left) row =
      row_loop m0 m1 terms row terms 0 ∷ product_loop m0 m1 terms left (row + 1)

  unfoldable pub product : Matrix → Matrix → Matrix
  unfolding dot_loop row_loop product_loop
  product m0 m1 = product_loop m0 m1 dim dim 0
