-- ===== src/Tests/Examples.antt =====
-- The example backend at work.
use api_bridge.Base.{ℕ, ◌+◌, ◌*◌, ◌<◌, ◌≡◌, refl, arith, some, List, [], ◌∷◌, ◌↔◌}
use api_bridge.Types.{Handle}
use api_bridge.Memory.{World, insert, handles}
use api_bridge.Engine.Handles.Results.{object_handle, created}
use api_bridge.Engine.Handles.Sound.{IsSound, created-IsSound}
use api_bridge.Engine.Handles.Sharing.{Holds, created-Holds}
use api_bridge.Params.{ok}
use api_bridge.Example.Matrix.{Matrix, dim, entry, product, read_rows, write_rows}
use api_bridge.Example.Workload.{check_workload}
use api_bridge.Example.Benchmark.{Payload, tag_encode_output}
use api_bridge.Example.Product.{sum, entry-product}
use api_bridge.Example.Samples.{read_rows-write_rows}
use api_bridge.Example.Accepts.{Fits, check_workload-Fits}
use api_bridge.Tests.Start.{start, start-IsSound}
use api_bridge.Tests.Params.{unsigned}

abbrev m0 : Matrix
m0 = (1 ∷ 2 ∷ []) ∷ (3 ∷ 4 ∷ []) ∷ []

abbrev two : Payload
two = m0 ∷ m0 ∷ []

-- The memory with one handle of two matrices, with these tags, at address 10.
abbrev with_two : World Payload
with_two = created 1 two start

abbrev handle : ℕ → Handle
handle tags = object_handle 10 8 tags

with_two-IsSound : IsSound with_two
with_two-IsSound = created-IsSound 1 two start start-IsSound

handle-Holds : (tags : ℕ) → Holds 1 two (handle tags) with_two
handle-Holds tags = created-Holds 1 8 tags two start

one_lt : 1 < dim
unfolding dim
one_lt = omega arith

zero_lt : 0 < dim
unfolding dim
zero_lt = omega arith

entry-product_example :
    entry (product ◌+◌ ◌*◌ m0 m0) 1 0 ≡ sum ◌+◌ ◌*◌ dim (λ k. entry m0 1 k * entry m0 k 0)
entry-product_example = entry-product ◌+◌ ◌*◌ m0 m0 1 0 one_lt zero_lt

-- A memory whose array at address 3 has the handle that comes next.
abbrev in_array : World Payload
in_array = record start {
  heap = insert 3 (handles (handle tag_encode_output ∷ [])) (start {P = Payload}).heap;
}

in_array-IsSound : IsSound in_array
in_array-IsSound = record {
  fresh = ground arith;
  null_free = refl;
  started = omega arith;
  counted = λ a s e. ground arith;
  owned = λ a s e. ground arith;
  alive = λ q obj e. absurd (ground arith);
}

read_rows-write_rows_example :
    (written : List ℕ) × (write_rows m0 0 4 (9 ∷ 9 ∷ 9 ∷ 9 ∷ []) ≡ some written)
    × (read_rows 2 2 written ≡ some m0)
read_rows-write_rows_example =
    read_rows-write_rows m0 2 (9 ∷ 9 ∷ 9 ∷ 9 ∷ []) (refl, (refl, tt)) (omega arith) refl

check_workload-Fits_example :
    (check_workload (unsigned 100 ∷ unsigned 100 ∷ unsigned 99 ∷ []) ≡ ok tt)
    ↔ Fits (unsigned 100 ∷ unsigned 100 ∷ unsigned 99 ∷ [])
check_workload-Fits_example = check_workload-Fits (unsigned 100 ∷ unsigned 100 ∷ unsigned 99 ∷ [])
