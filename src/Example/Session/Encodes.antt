-- ===== src/Example/Session/Encodes.antt =====
-- `encode` of api_bridge_example_backend/src/ex_benchmark.cpp on the samples of two matrices.
use api_bridge.Base.{
  ℕ, ◌≡◌, ◌≢◌, refl, sym, subst, arith, some, List, [], ◌∷◌, ◌++◌, length, ◌⊎◌, inl, inr,
}
use api_bridge.Types.{Address, Handle, DataPack, DataPackCollection}
use api_bridge.Memory.{
  World, returns, lookup, Benchmark, benchmark, handles, doubles, data_packs, pack_collection,
}
use api_bridge.Engine.Handles.{create_handle}
use api_bridge.Engine.Handles.Sound.{IsSound}
use api_bridge.Benchmark.{find_data_pack}
use api_bridge.Example.{Platform}
use api_bridge.Example.Matrix.{Matrix, dim, read_rows}
use api_bridge.Example.Benchmark.{Payload, tag_encode_output, encode_param, encode}
use api_bridge.Example.Samples.{flatten, HasWidth, read_rows-flatten}
use api_bridge.Example.Stages.{Gives, creates}

-- A matrix of the example's dimensions.
abbrev pub IsSquare : Matrix → Type 0
IsSquare mat = (length mat ≡ dim) × HasWidth dim mat

-- The first buffer of a pack starts with the rows of this matrix.
pub record Sample (pack : DataPack) (mat : Matrix) (w : World Payload) : Type 0 where
  pub nonnull : pack.p_buffers ≢ 0
  pub sample : Handle
  pub others : List Handle
  pub buffers : lookup pack.p_buffers w.heap ≡ some (handles (sample ∷ others))
  pub present : sample.p ≢ 0
  pub tail : List ℕ
  pub numbers : lookup sample.p w.heap ≡ some (doubles (flatten mat ++ tail))

-- The samples of two matrices, with the two packs in either order.
pub record Samples (p : Address) (m0 m1 : Matrix) (w : World Payload) : Type 0 where
  pub collection : DataPackCollection
  pub parameters : lookup p w.heap ≡ some (pack_collection collection)
  pub two : collection.pack_count ≡ 2
  pub nonnull : collection.p_data_packs ≢ 0
  pub pack0 : DataPack
  pub pack1 : DataPack
  pub packs :
      (lookup collection.p_data_packs w.heap ≡ some (data_packs (pack0 ∷ pack1 ∷ [])))
      ⊎ (lookup collection.p_data_packs w.heap ≡ some (data_packs (pack1 ∷ pack0 ∷ [])))
  pub position0 : pack0.param_position ≡ 0
  pub position1 : pack1.param_position ≡ 1
  pub sample0 : Sample pack0 m0 w
  pub sample1 : Sample pack1 m1 w

finds :
    (p : Address) (m0 m1 : Matrix) (w : World Payload) (s : Samples p m0 m1 w)
    → (find_data_pack s.collection 0 w ≡ returns s.pack0 w)
      × (find_data_pack s.collection 1 w ≡ returns s.pack1 w)
unfolding find_data_pack
finds p m0 m1 w s = elim s.packs [
  | inl at ↦ (
    ground (arith, at, s.two, s.nonnull, s.position0, s.position1),
    ground (arith, at, s.two, s.nonnull, s.position0, s.position1),
  )
  | inr at ↦ (
    ground (arith, at, s.two, s.nonnull, s.position0, s.position1),
    ground (arith, at, s.two, s.nonnull, s.position0, s.position1),
  )
]

encode_param_lem :
    (collection : DataPackCollection) (i : ℕ) (pack : DataPack) (mat : Matrix) (w : World Payload)
    → find_data_pack collection i w ≡ returns pack w
    → Sample pack mat w
    → IsSquare mat
    → encode_param collection i w ≡ returns mat w
unfolding encode_param
encode_param_lem collection i pack mat w found s square =
    let rows : read_rows dim dim (flatten mat ++ s.tail) ≡ some mat =
      subst (λ (n : ℕ). read_rows n dim (flatten mat ++ s.tail) ≡ some mat) square.0
        (read_rows-flatten mat dim s.tail square.1) in
    ground (arith, found, s.nonnull, s.buffers, s.present, s.numbers, rows)

encode_runs :
    (platform : Platform) (this p : Address) (bench : Benchmark) (m0 m1 : Matrix)
    (w : World Payload)
    → lookup this w.heap ≡ some (benchmark bench)
    → Samples p m0 m1 w
    → IsSquare m0
    → IsSquare m1
    → encode platform this p w
      ≡ create_handle bench.engine platform.sizeof_vector tag_encode_output (m0 ∷ m1 ∷ []) w
unfolding encode
encode_runs platform this p bench m0 m1 w at s square0 square1 =
    let (found0, found1) = finds p m0 m1 w s in
    ground (
      arith,
      at,
      s.parameters,
      s.two,
      encode_param_lem s.collection 0 s.pack0 m0 w found0 s.sample0 square0,
      encode_param_lem s.collection 1 s.pack1 m1 w found1 s.sample1 square1,
    )

-- In a sound memory, encoding, by a benchmark that is alive, the samples of two matrices of the
-- example's dimensions, whose packs are in either order, gives a handle of the two matrices.
pub encode-Gives :
    (platform : Platform) (this p : Address) (bench : Benchmark) (m0 m1 : Matrix)
    (w : World Payload)
    → IsSound w
    → lookup this w.heap ≡ some (benchmark bench)
    → Samples p m0 m1 w
    → IsSquare m0
    → IsSquare m1
    → Gives bench.engine tag_encode_output (m0 ∷ m1 ∷ []) w (encode platform this p w)
encode-Gives platform this p bench m0 m1 w sound at s square0 square1 =
    subst (Gives bench.engine tag_encode_output (m0 ∷ m1 ∷ []) w)
      (sym (encode_runs platform this p bench m0 m1 w at s square0 square1))
      (creates bench.engine platform.sizeof_vector tag_encode_output (m0 ∷ m1 ∷ []) w sound refl)
