-- ===== src/Example/Session/Stores.antt =====
-- `store` and `decode` of api_bridge_example_backend/src/ex_benchmark.cpp, on arrays of the caller.
use api_bridge.Base.{
  ℕ, ◌*◌, ◌/◌, ◌<◌, ◌≡◌, ◌≢◌, refl, sym, arith, none, some, List, [], ◌∷◌, length, ◌∙◌,
}
use api_bridge.Types.{Address, Handle, null_handle, DataPack, DataPackCollection}
use api_bridge.Memory.{
  World, returns, lookup, Benchmark, benchmark, handles, doubles, data_packs, pack_collection,
  lookup-insert_self, lookup-insert,
}
use api_bridge.Engine.Handles.{duplicate_handle_as, retrieve_from_handle}
use api_bridge.Engine.Handles.Sound.{IsSound}
use api_bridge.Engine.Handles.Sharing.{Holds}
use api_bridge.Engine.Handles.Caller.{written, written-IsSound, written-Keeps, written-Stays}
use api_bridge.Example.Matrix.{Matrix, write_rows}
use api_bridge.Example.Benchmark.{
  Payload, tag_operate_output, tag_store_output, tag_decrypt_output, store, decode, decode_param,
  decode_loop,
}
use api_bridge.Example.Samples.{flatten, HasWidth, write_rows-flatten}
use api_bridge.Example.Stages.{HasTags, reads}
use api_bridge.Example.Transfer.{duplicates}
use api_bridge.Example.Session.Delivers.{Delivered, written-Delivered}

store_runs :
    (this p : Address) (bench : Benchmark) (h old g : Handle) (rest : List Handle)
    (w u : World Payload)
    → lookup this w.heap ≡ some (benchmark bench)
    → p ≢ 0
    → lookup p w.heap ≡ some (handles (old ∷ rest))
    → duplicate_handle_as bench.engine h tag_store_output tag_operate_output
        (written p (handles (null_handle ∷ rest)) w)
      ≡ returns g u
    → lookup p u.heap ≡ some (handles (null_handle ∷ rest))
    → store this h p 1 w ≡ returns tt (written p (handles (g ∷ rest)) u)
unfolding store
store_runs this p bench h old g rest w u at ne cell runs there =
    ground
      (arith, at, cell, runs, there, lookup-insert p this (handles (null_handle ∷ rest)) w.heap)

-- In a sound memory, storing, by a benchmark that is alive, a handle of a result to an array of one
-- handle or more, as one handle, writes a handle of the same value to its first element.
pub store-Delivered :
    (this p : Address) (bench : Benchmark) (h old : Handle) (rest : List Handle) (mats : Payload)
    (w : World Payload)
    → IsSound w
    → lookup this w.heap ≡ some (benchmark bench)
    → lookup p w.heap ≡ some (handles (old ∷ rest))
    → Holds bench.engine mats h w
    → HasTags h tag_operate_output
    → (v : World Payload) × (store this h p 1 w ≡ returns tt v)
      × Delivered p bench.engine tag_store_output mats w v
store-Delivered this p bench h old rest mats w sound at cell o tags =
    let cleared = written p (handles (null_handle ∷ rest)) w in
    let safe =
      written-IsSound p (handles (old ∷ rest)) (handles (null_handle ∷ rest)) w cell tt tt sound in
    let kept = written-Keeps p (handles (old ∷ rest)) (handles (null_handle ∷ rest)) w cell tt tt in
    let (g, u, runs, given) =
      duplicates bench.engine h tag_store_output tag_operate_output mats cleared safe
        (kept bench.engine mats h o.nonnull o) refl refl tags refl in
    let (there, d) =
      written-Delivered p bench.engine tag_store_output mats g null_handle rest cleared u safe
        (lookup-insert_self p (handles (null_handle ∷ rest)) w.heap) given in
    (
      written p (handles (g ∷ rest)) u,
      store_runs this p bench h old g rest w u at (ground (arith, sound.null_free, cell)) cell runs
          there,
      record {
        given = d.given;
        rest = d.rest;
        cell = d.cell;
        tagged = d.tagged;
        sound = d.sound;
        holds = d.holds;
        keeps = λ that x f ne q. d.keeps that x f ne (kept that x f ne q);
        stays = λ a q plain other is. d.stays a q plain other (
            written-Stays p (handles (old ∷ rest)) (handles (null_handle ∷ rest)) w cell tt tt a q
              plain other is);
      },
    )

-- The first buffer of the first pack at an address is an array of as many doubles as the size of
-- the buffer says, and of this number.
pub record Target (p : Address) (count : ℕ) (w : World Payload) : Type 0 where
  pub collection : DataPackCollection
  pub native : lookup p w.heap ≡ some (pack_collection collection)
  pub some_pack : collection.pack_count ≢ 0
  pub pack : DataPack
  pub more : List DataPack
  pub packs : lookup collection.p_data_packs w.heap ≡ some (data_packs (pack ∷ more))
  pub some_buffer : pack.buffer_count ≢ 0
  pub sample : Handle
  pub others : List Handle
  pub buffers : lookup pack.p_buffers w.heap ≡ some (handles (sample ∷ others))
  pub numbers : List ℕ
  pub array : lookup sample.p w.heap ≡ some (doubles numbers)
  pub size : sample.size ≡ 8 * length numbers
  pub room : length numbers ≡ count

decode_param_runs :
    (p : Address) (mat : Matrix) (count : ℕ) (w : World Payload) (t : Target p count w)
    → 0 < length t.numbers
    → write_rows mat 0 (length t.numbers) t.numbers ≡ some (flatten mat)
    → decode_param mat t.collection.p_data_packs 0 w
      ≡ returns tt (written t.sample.p (doubles (flatten mat)) w)
unfolding decode_param
decode_param_runs p mat count w t pos writes =
    let doubles_count : t.sample.size / 8 ≡ length t.numbers = omega (arith, t.size) in
    ground (arith, t.packs, t.some_buffer, t.buffers, t.array, doubles_count, pos, writes)

decode_runs :
    (this p : Address) (bench : Benchmark) (h : Handle) (mat : Matrix) (count : ℕ)
    (w : World Payload) (t : Target p count w)
    → lookup 0 w.heap ≡ none
    → lookup this w.heap ≡ some (benchmark bench)
    → retrieve_from_handle h tag_decrypt_output w ≡ returns (mat ∷ []) w
    → 0 < length t.numbers
    → write_rows mat 0 (length t.numbers) t.numbers ≡ some (flatten mat)
    → decode this h p w ≡ returns tt (written t.sample.p (doubles (flatten mat)) w)
unfolding decode decode_loop
decode_runs this p bench h mat count w t null_free at read pos writes =
    let nonnull : t.collection.p_data_packs ≢ 0 = λ e. ground (arith, null_free, t.packs) in
    ground (
      arith,
      at,
      read,
      t.native,
      t.some_pack,
      nonnull,
      decode_param_runs p mat count w t pos writes,
    )

-- In a memory with nothing at the null address, decoding, by a benchmark that is alive, a handle of
-- one decrypted matrix, whose rows have one width that is not 0, to a buffer of exactly its size,
-- writes the matrix there, row by row, and changes nothing else.
pub decode-flatten :
    (this p : Address) (bench : Benchmark) (h : Handle) (mat : Matrix) (width count : ℕ)
    (w : World Payload) (t : Target p count w)
    → lookup 0 w.heap ≡ none
    → lookup this w.heap ≡ some (benchmark bench)
    → Holds bench.engine (mat ∷ []) h w
    → HasTags h tag_decrypt_output
    → HasWidth width mat
    → 0 < width
    → length (flatten mat) ≡ count
    → 0 < count
    → decode this h p w ≡ returns tt (written t.sample.p (doubles (flatten mat)) w)
decode-flatten this p bench h mat width count w t null_free at o tags has pos size some_number =
    decode_runs this p bench h mat count w t null_free at
      (reads bench.engine tag_decrypt_output (mat ∷ []) h w refl refl o tags)
      (omega (arith, t.room))
      (write_rows-flatten mat width 0 (length t.numbers) [] t.numbers has pos refl
        (t.room ∙ sym size) (omega arith))
