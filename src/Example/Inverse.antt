-- ===== src/Example/Inverse.antt =====
-- `decode` of api_bridge_example_backend/src/ex_benchmark.cpp after `encode`, through
-- hebench/api_bridge/src/main.cpp. It takes decrypted data only, where hebench/api_bridge/api.h
-- calls it the inverse of `encode`.
use api_bridge.Base.{ℕ, ◌≡◌, ◌≢◌, arith, some, List, [], ◌∷◌, inl, inr}
use api_bridge.Types.{Handle, ecode_success, ecode_critical_error}
use api_bridge.Memory.{World, returns, lookup, Benchmark, handles}
use api_bridge.Engine.Handles.Sharing.{Holds}
use api_bridge.Engine.Handles.Errors.{Unreadable}
use api_bridge.Api.Calls.{CodeCall, run_code}
use api_bridge.Api.Guards.{Reports}
use api_bridge.Example.{Platform}
use api_bridge.Example.Matrix.{Matrix}
use api_bridge.Example.Benchmark.{Payload, tag_encode_output, tag_decrypt_output}
use api_bridge.Example.Backend.{example}
use api_bridge.Example.Misuse.{run_code-misused}
use api_bridge.Example.Stages.{HasTags}
use api_bridge.Example.Session.{Places, Slot}
use api_bridge.Example.Session.Encodes.{Samples, IsSquare}
use api_bridge.Example.Session.Ready.{IsReady, Delivered-IsReady}
use api_bridge.Example.Session.Steps.{encode-Delivers}

encoded-Unreadable : (g : Handle) → HasTags g tag_encode_output → Unreadable g tag_decrypt_output
encoded-Unreadable g tagged = inr (inl (ground (arith, tagged)))

-- On a memory that is ready for a session, with the samples of two matrices of the example's
-- dimensions, `encode` succeeds and gives its caller a handle of the two matrices; but `decode` of
-- that handle, to any place that is not null, returns the critical error, leaves it as the last
-- error, and touches neither memory nor the table of error codes: no data comes back.
pub decode-encode :
    (platform : Platform) (c : Places) (bench : Benchmark) (count p_native : ℕ) (m0 m1 : Matrix)
    (w : World Payload)
    → IsReady c bench count w
    → Samples c.p_parameters m0 m1 w
    → IsSquare m0
    → IsSquare m1
    → p_native ≢ 0
    → (v : World Payload) × (g : Handle) × (rest : List Handle) × (run_code
          (example platform)
          (CodeCall.encode c.h_benchmark c.p_parameters (c.cell Slot.plaintext))
          w
        ≡ returns ecode_success v)
      × (lookup (c.cell Slot.plaintext) v.heap ≡ some (handles (g ∷ rest)))
      × Holds bench.engine (m0 ∷ m1 ∷ []) g v
      × Reports ecode_critical_error v
          (run_code (example platform) (CodeCall.decode c.h_benchmark g p_native) v)
unfolding run_code
decode-encode platform c bench count p_native m0 m1 w r s square0 square1 nonnull =
    let (v, runs, d) = encode-Delivers platform c bench count w r m0 m1 s square0 square1 in
    let ready =
      Delivered-IsReady c bench count w v r Slot.plaintext bench.engine tag_encode_output
        (m0 ∷ m1 ∷ []) d in
    (
      v,
      d.given,
      d.rest,
      runs,
      d.cell,
      d.holds,
      run_code-misused platform (CodeCall.decode c.h_benchmark d.given p_native) ready.handle bench
          v
          (
            (λ e. ground (arith, ready.sound.null_free, ready.at_handle)),
            ready.at_handle,
            (d.holds.nonnull, nonnull),
          )
          ready.at_benchmark (encoded-Unreadable d.given d.tagged),
    )
