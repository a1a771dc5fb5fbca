-- ===== src/Example/Session/Steps.antt =====
-- Each call of a client's session, through hebench/api_bridge/src/main.cpp, on a memory that is
-- ready for it.
use api_bridge.Base.{ℕ, ◌<◌, ◌*◌, ◌∙◌, ◌≡◌, ◌≢◌, sym, subst, arith, some, List, [], ◌∷◌, inr}
use api_bridge.Types.{Address, Handle, ErrorCode, ecode_success}
use api_bridge.Memory.{World, returns, M, lookup, Benchmark, handles, doubles}
use api_bridge.Engine.Handles.Caller.{written, IsGiven}
use api_bridge.Engine.Handles.Sharing.{Holds}
use api_bridge.Api.Benchmarks
use api_bridge.Example.{Platform}
use api_bridge.Example.Matrix.{Matrix, dim, product}
use api_bridge.Example.Benchmark.{
  Payload, encode, encrypt, decrypt, operate, load, tag_encode_output, tag_encrypt_output,
  tag_load_output, tag_operate_output, tag_store_output, tag_decrypt_output,
}
use api_bridge.Example.Backend.{example}
use api_bridge.Example.Samples.{flatten}
use api_bridge.Example.Stages.{HasTags, encrypt-Gives, decrypt-Gives, operate-Gives}
use api_bridge.Example.Transfer.{load-Gives}
use api_bridge.Example.Session.{Places, Slot, ◌then◌, with_handle}
use api_bridge.Example.Session.Delivers.{deliver, deliver-Delivers, Delivers}
use api_bridge.Example.Session.Encodes.{Samples, IsSquare, encode-Gives}
use api_bridge.Example.Session.Stores.{store-Delivered, decode-flatten}
use api_bridge.Example.Session.Squares.{dim_pos, area_pos, IsSquare-length}
use api_bridge.Example.Session.Ready.{IsReady}

-- A call that succeeds is followed by the rest of the session.
pub then_runs :
    (m k : M Payload ErrorCode) (w v : World Payload)
    → m w ≡ returns ecode_success v
    → (m then k) w ≡ k v
then_runs m k w v e = ground (arith, e)

pub with_handle_runs :
    (p : Address) (f : Handle → M Payload ErrorCode) (h : Handle) (rest : List Handle)
    (w : World Payload)
    → lookup p w.heap ≡ some (handles (h ∷ rest))
    → with_handle p f w ≡ f h w
with_handle_runs p f h rest w e = ground (arith, e)

module _ (platform : Platform) (c : Places) (bench : Benchmark) (count : ℕ) (w : World Payload)
    (r : IsReady c bench count w) where
  ne : c.h_benchmark.p ≢ 0
  ne e = ground (arith, r.sound.null_free, r.at_handle)

  delivers :
      (s : Slot) (tags : ℕ) (value : Payload) (m : M Payload Handle) (call : M Payload ErrorCode)
      → call w ≡ deliver (example platform) (c.cell s) m w
      → (g : Handle) × (u : World Payload) × (m w ≡ returns g u)
        × IsGiven bench.engine tags value w g u
      → Delivers (c.cell s) bench.engine tags value w (call w)
  delivers s tags value m call e given =
      subst (Delivers (c.cell s) bench.engine tags value w) (sym e) (
        deliver-Delivers (example platform) (c.cell s) bench.engine tags value m w r.sound
          (r.cells s) given)

  -- A cell of the client is not at the null address.
  cell_nonnull : (s : Slot) → c.cell s ≢ 0
  cell_nonnull s e = let (old, rest, at) = r.cells s in ground (arith, r.sound.null_free, at)

  pub encode-Delivers :
      (m0 m1 : Matrix)
      → Samples c.p_parameters m0 m1 w
      → IsSquare m0
      → IsSquare m1
      → Delivers (c.cell Slot.plaintext) bench.engine tag_encode_output (m0 ∷ m1 ∷ []) w (
          Benchmarks.encode
            (example platform)
            c.h_benchmark
            c.p_parameters
            (c.cell Slot.plaintext)
            w)
  unfolding Benchmarks.encode
  encode-Delivers m0 m1 s square0 square1 =
      delivers Slot.plaintext tag_encode_output (m0 ∷ m1 ∷ [])
        (encode platform r.handle.p_benchmark c.p_parameters)
        (Benchmarks.encode (example platform) c.h_benchmark c.p_parameters (c.cell Slot.plaintext))
        (ground (
          arith,
          ne,
          r.at_handle,
          cell_nonnull Slot.plaintext,
          s.parameters,
          s.nonnull,
          r.sound.null_free,
        ))
        (encode-Gives platform r.handle.p_benchmark c.p_parameters bench m0 m1 w r.sound
          r.at_benchmark s square0 square1)

  pub encrypt-Delivers :
      (mats : Payload) (h : Handle)
      → Holds bench.engine mats h w
      → HasTags h tag_encode_output
      → Delivers
          (c.cell Slot.ciphertext)
          bench.engine
          tag_encrypt_output
          mats
          w
          (Benchmarks.encrypt (example platform) c.h_benchmark h (c.cell Slot.ciphertext) w)
  unfolding Benchmarks.encrypt
  encrypt-Delivers mats h o tags =
      delivers Slot.ciphertext tag_encrypt_output mats (encrypt platform r.handle.p_benchmark h)
        (Benchmarks.encrypt (example platform) c.h_benchmark h (c.cell Slot.ciphertext))
        (ground (arith, ne, r.at_handle, cell_nonnull Slot.ciphertext, o.nonnull))
        (encrypt-Gives platform r.handle.p_benchmark bench h mats w r.sound r.at_benchmark o tags)

  pub load-Delivers :
      (mats : Payload) (h : Handle) (rest : List Handle)
      → lookup (c.cell Slot.ciphertext) w.heap ≡ some (handles (h ∷ rest))
      → Holds bench.engine mats h w
      → HasTags h tag_encrypt_output
      → Delivers (c.cell Slot.remote) bench.engine tag_load_output mats w (
          Benchmarks.load
            (example platform)
            c.h_benchmark
            (c.cell Slot.ciphertext)
            1
            (c.cell Slot.remote)
            w)
  unfolding Benchmarks.load
  load-Delivers mats h rest at o tags =
      delivers Slot.remote tag_load_output mats
        (load r.handle.p_benchmark (c.cell Slot.ciphertext) 1)
        (Benchmarks.load (example platform) c.h_benchmark (c.cell Slot.ciphertext) 1
          (c.cell Slot.remote))
        (ground (arith, ne, r.at_handle, cell_nonnull Slot.ciphertext, cell_nonnull Slot.remote))
        (load-Gives r.handle.p_benchmark (c.cell Slot.ciphertext) bench h rest mats w r.sound
          r.at_benchmark (cell_nonnull Slot.ciphertext) at o (inr tags))

  pub operate-Delivers :
      (m0 m1 : Matrix) (h : Handle)
      → Holds bench.engine (m0 ∷ m1 ∷ []) h w
      → HasTags h tag_load_output
      → Delivers
          (c.cell Slot.result)
          bench.engine
          tag_operate_output
          (product platform.double_add platform.double_mul m0 m1 ∷ [])
          w
          (Benchmarks.operate
            (example platform)
            c.h_benchmark
            h
            c.p_param_indexers
            2
            (c.cell Slot.result)
            w)
  unfolding Benchmarks.operate
  operate-Delivers m0 m1 h o tags =
      delivers Slot.result tag_operate_output
        (product platform.double_add platform.double_mul m0 m1 ∷ [])
        (operate platform r.handle.p_benchmark h c.p_param_indexers 2)
        (Benchmarks.operate (example platform) c.h_benchmark h c.p_param_indexers 2
          (c.cell Slot.result))
        (ground (
          arith,
          ne,
          r.at_handle,
          cell_nonnull Slot.result,
          o.nonnull,
          r.at_indexers,
          r.sound.null_free,
        ))
        (operate-Gives platform r.handle.p_benchmark bench h m0 m1 [] c.p_param_indexers 2 r.array w
          r.sound r.at_benchmark o tags r.at_indexers r.good)

  pub decrypt-Delivers :
      (mats : Payload) (h : Handle)
      → Holds bench.engine mats h w
      → HasTags h tag_store_output
      → Delivers
          (c.cell Slot.decrypted)
          bench.engine
          tag_decrypt_output
          mats
          w
          (Benchmarks.decrypt (example platform) c.h_benchmark h (c.cell Slot.decrypted) w)
  unfolding Benchmarks.decrypt
  decrypt-Delivers mats h o tags =
      delivers Slot.decrypted tag_decrypt_output mats (decrypt platform r.handle.p_benchmark h)
        (Benchmarks.decrypt (example platform) c.h_benchmark h (c.cell Slot.decrypted))
        (ground (arith, ne, r.at_handle, cell_nonnull Slot.decrypted, o.nonnull))
        (decrypt-Gives platform r.handle.p_benchmark bench h mats w r.sound r.at_benchmark o tags)

  pub store-Delivers :
      (mats : Payload) (h : Handle)
      → Holds bench.engine mats h w
      → HasTags h tag_operate_output
      → Delivers
          (c.cell Slot.local)
          bench.engine
          tag_store_output
          mats
          w
          (Benchmarks.store (example platform) c.h_benchmark h (c.cell Slot.local) 1 w)
  unfolding Benchmarks.store
  store-Delivers mats h o tags =
      let (old, rest, at) = r.cells Slot.local in
      let (v, runs, d) =
        store-Delivered r.handle.p_benchmark (c.cell Slot.local) bench h old rest mats w r.sound
          r.at_benchmark at o tags in
      (v, ground (arith, ne, r.at_handle, cell_nonnull Slot.local, o.nonnull, runs), d)

  pub decode_writes :
      (mat : Matrix) (h : Handle)
      → Holds bench.engine (mat ∷ []) h w
      → HasTags h tag_decrypt_output
      → IsSquare mat
      → count ≡ dim * dim
      → Benchmarks.decode (example platform) c.h_benchmark h c.p_native w
        ≡ returns ecode_success (written r.target.sample.p (doubles (flatten mat)) w)
  unfolding Benchmarks.decode
  decode_writes mat h o tags square area =
      let runs =
        decode-flatten r.handle.p_benchmark c.p_native bench h mat dim count w r.target
          r.sound.null_free r.at_benchmark o tags square.1 dim_pos
          (IsSquare-length mat square ∙ sym area) (subst (λ n. 0 < n) (sym area) area_pos) in
      ground (arith, ne, r.at_handle, o.nonnull, r.target.native, r.sound.null_free, runs)
