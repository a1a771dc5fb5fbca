-- ===== src/Example/Session/Product.antt =====
-- A client's session computes the product: the whole way of the data through
-- hebench/api_bridge/src/main.cpp and api_bridge_example_backend/src/ex_benchmark.cpp.
use api_bridge.Base.{ℕ, ◌*◌, ◌≡◌, refl, some, List, [], ◌∷◌, ◌∙◌, subst}
use api_bridge.Types.{Address, ErrorCode, ecode_success, Handle}
use api_bridge.Memory.{
  World, returns, lookup, Benchmark, doubles, handles, M, Outcome, lookup-insert_self,
}
use api_bridge.Engine.Handles.Sound.{IsSound}
use api_bridge.Engine.Handles.Sharing.{Keeps}
use api_bridge.Engine.Handles.Caller.{written, written-IsSound, written-Keeps}
use api_bridge.Api.Benchmarks
use api_bridge.Example.Backend.{example}
use api_bridge.Example.{Platform}
use api_bridge.Example.Matrix.{Matrix, dim, product}
use api_bridge.Example.Benchmark.{
  Payload, tag_encode_output, tag_encrypt_output, tag_load_output, tag_operate_output,
  tag_store_output, tag_decrypt_output,
}
use api_bridge.Example.Samples.{flatten}
use api_bridge.Example.Session.{
  Places, Slot, ◌then◌, with_handle, decoding, decrypting, storing, operating, loading, encrypting,
  session,
}
use api_bridge.Example.Session.Encodes.{Samples, IsSquare}
use api_bridge.Example.Session.Squares.{product-IsSquare}
use api_bridge.Example.Session.Delivers.{Delivered}
use api_bridge.Example.Session.Ready.{IsReady, Delivered-IsReady}
use api_bridge.Example.Session.Steps.{
  then_runs, with_handle_runs, encode-Delivers, encrypt-Delivers, load-Delivers, operate-Delivers,
  store-Delivers, decrypt-Delivers, decode_writes,
}

module _ (platform : Platform) (c : Places) (bench : Benchmark) (m0 m1 : Matrix) where
  abbrev area : ℕ
  area = dim * dim

  abbrev multiplied : Matrix
  multiplied = product platform.double_add platform.double_mul m0 m1

  -- Success with the product in the client's buffer, a sound memory and every handle kept.
  abbrev pub Computes : World Payload → Outcome Payload ErrorCode → Type 0
  Computes w r =
      (v : World Payload) × (r ≡ returns ecode_success v)
      × (lookup c.p_buffer v.heap ≡ some (doubles (flatten multiplied)))
      × IsSound v
      × Keeps 0 w v

  -- A call that keeps every handle before the rest of a session.
  after :
      (m k : M Payload ErrorCode) (w v : World Payload)
      → m w ≡ returns ecode_success v
      → Keeps 0 w v
      → Computes v (k v)
      → Computes w ((m then k) w)
  after m k w v runs keeps (u, rest, result, sound, kept) = (
    u,
    then_runs m k w v runs ∙ rest,
    result,
    sound,
    λ that x h ne o. kept that x h ne (keeps that x h ne o),
  )

  -- A call on the handle in a cell, before the rest of a session.
  after_handle :
      (p : Address) (f : Handle → M Payload ErrorCode) (k : M Payload ErrorCode) (h : Handle)
      (rest : List Handle) (w v : World Payload)
      → lookup p w.heap ≡ some (handles (h ∷ rest))
      → f h w ≡ returns ecode_success v
      → Keeps 0 w v
      → Computes v (k v)
      → Computes w ((with_handle p f then k) w)
  after_handle p f k h rest w v at runs =
      after (with_handle p f) k w v (with_handle_runs p f h rest w at ∙ runs)

  abbrev At : Slot → ℕ → Payload → World Payload → World Payload → Type 0
  At s tags value w v = Delivered (c.cell s) bench.engine tags value w v

  decoding-Computes :
      (w v : World Payload)
      → IsReady c bench area v
      → At Slot.decrypted tag_decrypt_output (multiplied ∷ []) w v
      → Computes v (decoding platform c v)
  decoding-Computes w v r d =
      let result = doubles (flatten multiplied) in
      let buffer = r.target.sample.p in
      (
        written buffer result v,
        with_handle_runs (c.cell Slot.decrypted) _ d.given d.rest v d.cell
            ∙ decode_writes platform c bench area v r multiplied d.given d.holds d.tagged
                (product-IsSquare platform.double_add platform.double_mul m0 m1) refl,
        subst (λ p. lookup p (written buffer result v).heap ≡ some result) r.at_buffer
            (lookup-insert_self buffer result v.heap),
        written-IsSound buffer (doubles r.target.numbers) result v r.target.array tt tt r.sound,
        written-Keeps buffer (doubles r.target.numbers) result v r.target.array tt tt,
      )

  decrypting-Computes :
      (w v : World Payload)
      → IsReady c bench area v
      → At Slot.local tag_store_output (multiplied ∷ []) w v
      → Computes v (decrypting platform c v)
  decrypting-Computes w v r d =
      let (u, runs, e) =
        decrypt-Delivers platform c bench area v r (multiplied ∷ []) d.given d.holds d.tagged in
      after_handle (c.cell Slot.local) _ (decoding platform c) d.given d.rest v u d.cell runs
        e.keeps
        (decoding-Computes v u (Delivered-IsReady c bench area v u r Slot.decrypted _ _ _ e) e)

  storing-Computes :
      (w v : World Payload)
      → IsReady c bench area v
      → At Slot.result tag_operate_output (multiplied ∷ []) w v
      → Computes v (storing platform c v)
  storing-Computes w v r d =
      let (u, runs, e) =
        store-Delivers platform c bench area v r (multiplied ∷ []) d.given d.holds d.tagged in
      after_handle (c.cell Slot.result) _ (decrypting platform c) d.given d.rest v u d.cell runs
        e.keeps
        (decrypting-Computes v u (Delivered-IsReady c bench area v u r Slot.local _ _ _ e) e)

  operating-Computes :
      (w v : World Payload)
      → IsReady c bench area v
      → At Slot.remote tag_load_output (m0 ∷ m1 ∷ []) w v
      → Computes v (operating platform c v)
  operating-Computes w v r d =
      let (u, runs, e) =
        operate-Delivers platform c bench area v r m0 m1 d.given d.holds d.tagged in
      after_handle (c.cell Slot.remote) _ (storing platform c) d.given d.rest v u d.cell runs
        e.keeps (storing-Computes v u (Delivered-IsReady c bench area v u r Slot.result _ _ _ e) e)

  loading-Computes :
      (w v : World Payload)
      → IsReady c bench area v
      → At Slot.ciphertext tag_encrypt_output (m0 ∷ m1 ∷ []) w v
      → Computes v (loading platform c v)
  loading-Computes w v r d =
      let (u, runs, e) =
        load-Delivers platform c bench area v r (m0 ∷ m1 ∷ []) d.given d.rest d.cell d.holds
          d.tagged in
      after
        (Benchmarks.load (example platform) c.h_benchmark (c.cell Slot.ciphertext) 1
          (c.cell Slot.remote))
        (operating platform c) v u runs e.keeps
        (operating-Computes v u (Delivered-IsReady c bench area v u r Slot.remote _ _ _ e) e)

  encrypting-Computes :
      (w v : World Payload)
      → IsReady c bench area v
      → At Slot.plaintext tag_encode_output (m0 ∷ m1 ∷ []) w v
      → Computes v (encrypting platform c v)
  encrypting-Computes w v r d =
      let (u, runs, e) =
        encrypt-Delivers platform c bench area v r (m0 ∷ m1 ∷ []) d.given d.holds d.tagged in
      after_handle (c.cell Slot.plaintext) _ (loading platform c) d.given d.rest v u d.cell runs
        e.keeps
        (loading-Computes v u (Delivered-IsReady c bench area v u r Slot.ciphertext _ _ _ e) e)

  -- On a sound memory with a benchmark that is alive, the samples of two matrices of the example's
  -- dimensions and a buffer for one, a client's session succeeds: it encodes, encrypts, loads,
  -- operates, stores, decrypts and decodes, and the buffer is the product of the two matrices, row
  -- by row; the memory is sound and every handle keeps its value.
  pub session-Computes :
      (w : World Payload)
      → IsReady c bench (dim * dim) w
      → Samples c.p_parameters m0 m1 w
      → IsSquare m0
      → IsSquare m1
      → Computes w (session platform c w)
  session-Computes w r samples square0 square1 =
      let (u, runs, e) = encode-Delivers platform c bench area w r m0 m1 samples square0 square1 in
      after
        (Benchmarks.encode (example platform) c.h_benchmark c.p_parameters (c.cell Slot.plaintext))
        (encrypting platform c) w u runs e.keeps
        (encrypting-Computes w u (Delivered-IsReady c bench area w u r Slot.plaintext _ _ _ e) e)
