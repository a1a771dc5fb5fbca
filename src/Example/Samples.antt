-- ===== src/Example/Samples.antt =====
-- Matrices as samples of doubles: what `decode` writes, `encode` reads back, of
-- api_bridge_example_backend/src/ex_benchmark.cpp.
use api_bridge.Base.{
  ℕ, zero, suc, ◌+◌, ◌-◌, ◌<◌, ◌≤◌, ◌≡◌, refl, arith, min, Option, some, List, [], ◌∷◌, ◌++◌,
  length, ◌∙◌, ap, sym, take, drop, append_assoc, append-nil, take_all, length-append, length-drop,
}
use api_bridge.Memory.{bind?}
use api_bridge.Example.Matrix.{Matrix, read_rows, write_rows}

-- The doubles of a matrix, row by row.
abbrev pub flatten : Matrix → List ℕ
flatten [] = []
flatten (row ∷ rows) = row ++ flatten rows

-- Every row has this width.
abbrev pub HasWidth : ℕ → Matrix → Type 0
HasWidth width [] = Unit {0}
HasWidth width (row ∷ rows) = (length row ≡ width) × HasWidth width rows

take-append {ℓ} : {A : Type ℓ} (n : ℕ) (xs ys : List A) → n ≡ length xs → take n (xs ++ ys) ≡ xs
take-append zero [] ys e = refl
take-append zero (x ∷ xs) ys e = absurd (omega arith)
take-append (suc n) [] ys e = absurd (omega arith)
take-append (suc n) (x ∷ xs) ys e = ap (λ r. x ∷ r) (take-append n xs ys (omega arith))

drop-append {ℓ} : {A : Type ℓ} (n : ℕ) (xs ys : List A) → n ≡ length xs → drop n (xs ++ ys) ≡ ys
drop-append zero [] ys e = refl
drop-append zero (x ∷ xs) ys e = absurd (omega arith)
drop-append (suc n) [] ys e = absurd (omega arith)
drop-append (suc n) (x ∷ xs) ys e = drop-append n xs ys (omega arith)

drop-append_past {ℓ} :
    {A : Type ℓ} (n k : ℕ) (xs ys : List A) → n ≡ length xs → drop (n + k) (xs ++ ys) ≡ drop k ys
drop-append_past n k [] ys e = let same : n + k ≡ k = omega arith in ap (λ (m : ℕ). drop m ys) same
drop-append_past zero k (x ∷ xs) ys e = absurd (omega arith)
drop-append_past (suc n) k (x ∷ xs) ys e =
    let same : suc n + k ≡ suc (n + k) = omega arith in
    ap (λ (m : ℕ). drop m (x ∷ (xs ++ ys))) same ∙ drop-append_past n k xs ys (omega arith)

read_rows_step :
    (left width : ℕ) (sample : List ℕ)
    → width ≤ length sample
    → read_rows (suc left) width sample
      ≡ bind? (read_rows left width (drop width sample)) (λ rows. some (take width sample ∷ rows))
unfolding read_rows
read_rows_step left width sample room = ground arith

-- Reading as many rows as a matrix has, of its width, from its doubles gives the matrix, whatever
-- follows them.
pub read_rows-flatten :
    (mat : Matrix) (width : ℕ) (rest : List ℕ)
    → HasWidth width mat
    → read_rows (length mat) width (flatten mat ++ rest) ≡ some mat
unfolding read_rows
read_rows-flatten [] width rest has = refl
read_rows-flatten (row ∷ rows) width rest has =
    let all = row ++ (flatten rows ++ rest) in
    let n : width ≡ length row = omega (arith, has.0) in
    ap (read_rows (suc (length rows)) width) (append_assoc row (flatten rows) rest)
    ∙ read_rows_step (length rows) width all
        (omega (arith, n, length-append row (flatten rows ++ rest)))
    ∙ ap
        (λ (t : List ℕ).
          bind? (read_rows (length rows) width t) (λ mat. some (take width all ∷ mat)))
        (drop-append width row (flatten rows ++ rest) n)
    ∙ ap
        (λ (r : List ℕ).
          bind? (read_rows (length rows) width (flatten rows ++ rest)) (λ mat. some (r ∷ mat)))
        (take-append width row (flatten rows ++ rest) n)
    ∙ ap (λ (o : Option Matrix). bind? o (λ mat. some (row ∷ mat)))
        (read_rows-flatten rows width rest has.1)

write_rows_step :
    (row : List ℕ) (rows : Matrix) (width offset count : ℕ) (buffer : List ℕ)
    → min (length row) (count - offset) ≡ width
    → offset < count
    → offset + width ≤ length buffer
    → write_rows (row ∷ rows) offset count buffer
      ≡ write_rows rows
          (offset + width)
          count
          (take offset buffer ++ (take width row ++ drop (offset + width) buffer))
unfolding write_rows
write_rows_step row rows width offset count buffer e inside room = rw (sym e) (ground arith)

-- Writing a matrix from an offset on, where there is room for it, puts its doubles there.
pub write_rows-flatten :
    (mat : Matrix) (width offset count : ℕ) (front old : List ℕ)
    → HasWidth width mat
    → 0 < width
    → offset ≡ length front
    → length old ≡ length (flatten mat)
    → count ≡ offset + length old
    → write_rows mat offset count (front ++ old) ≡ some (front ++ flatten mat)
unfolding write_rows
write_rows-flatten [] width offset count front [] has pos e room all = refl
write_rows-flatten [] width offset count front (x ∷ old) has pos e room all = absurd (omega arith)
write_rows-flatten (row ∷ rows) width offset count front old has pos e room all =
    let n : min (length row) (count - offset) ≡ width =
      omega (arith, has.0, length-append row (flatten rows)) in
    let next =
      write_rows-flatten rows width (offset + width) count (front ++ row) (drop width old) has.1 pos
        (omega (arith, has.0, length-append front row))
        (omega (arith, has.0, length-append row (flatten rows), length-drop width old))
        (omega (arith, has.0, length-append row (flatten rows), length-drop width old)) in
    let buffer : take offset (front ++ old)
          ++ (take width row ++ drop (offset + width) (front ++ old))
        ≡ (front ++ row) ++ drop width old =
      ap (λ (f : List ℕ). f ++ (take width row ++ drop (offset + width) (front ++ old)))
        (take-append offset front old e)
      ∙ ap (λ (r : List ℕ). front ++ (r ++ drop (offset + width) (front ++ old)))
          (take_all width row (omega (arith, has.0)))
      ∙ ap (λ (r : List ℕ). front ++ (row ++ r)) (drop-append_past offset width front old e)
      ∙ sym (append_assoc front row (drop width old)) in
    write_rows_step row rows width offset count (front ++ old) n
      (omega (arith, has.0, length-append row (flatten rows)))
      (omega (arith, has.0, length-append front old, length-append row (flatten rows)))
    ∙ ap (write_rows rows (offset + width) count) buffer
    ∙ next
    ∙ ap (λ (r : List ℕ). some r) (append_assoc front row (flatten rows))

-- A sample of exactly the size of a matrix, with rows that are not empty: what is written to it is
-- the matrix, whatever it held, and reading it back gives the matrix.
pub read_rows-write_rows :
    (mat : Matrix) (width : ℕ) (sample : List ℕ)
    → HasWidth width mat
    → 0 < width
    → length sample ≡ length (flatten mat)
    → (written : List ℕ) × (write_rows mat 0 (length sample) sample ≡ some written)
      × (read_rows (length mat) width written ≡ some mat)
read_rows-write_rows mat width sample has pos size = (
  flatten mat,
  write_rows-flatten mat width 0 (length sample) [] sample has pos refl size (omega arith),
  ap (λ (s : List ℕ). read_rows (length mat) width s) (sym (append-nil (flatten mat)))
      ∙ read_rows-flatten mat width [] has,
)
