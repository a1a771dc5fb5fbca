-- ===== src/Example/Misuse.antt =====
-- Handles at the wrong stage: the functions of hebench/api_bridge/src/main.cpp, on the benchmark of
-- api_bridge_example_backend/src/ex_benchmark.cpp, with a handle that another stage gave out. Data
-- goes one way round: `decode` after `decrypt` after `store`, not at once after `encode` or `encrypt`.
use api_bridge.Base.{
  ℕ, ◌<◌, ◌≡◌, ◌≢◌, sym, subst, arith, some, List, ◌∷◌, ◌⊎◌, get_elem?, bit_and, Option, inl, inr,
  ltb, ◌==◌, if◌then◌else◌,
}
use api_bridge.Types.{Address, Handle, ParameterIndexer, ecode_critical_error}
use api_bridge.Types.Tag
use api_bridge.Memory.{
  World, hebench_error, Outcome, throws, M, lookup, Benchmark, BenchmarkHandle, benchmark, handles,
  indexers, Fails,
}
use api_bridge.Engine.Handles.{duplicate_handle_as}
use api_bridge.Engine.Handles.Errors.{
  Unreadable, retrieve_from_handle-throws, duplicate_handle_as-lacks,
}
use api_bridge.Backend.{Backend}
use api_bridge.Api.Calls.{CodeCall, run_code}
use api_bridge.Api.Guards.{Reports}
use api_bridge.Api.Asks.{IsComplete, IsAsked, with_result, ask, settle, output, run_code-settles}
use api_bridge.Example.{Platform}
use api_bridge.Example.Backend.{example}
use api_bridge.Example.Benchmark.{
  Payload, tag_encode_output, tag_encrypt_output, tag_decrypt_output, tag_load_output,
  tag_store_output, decode, encrypt, decrypt, load, operate,
}
use api_bridge.Example.Workload.{num_operands}
use api_bridge.Example.Stages.{one_value, indexers_pass}

-- A handle that `load` does not take: it is not an object's, or neither encoded nor encrypted.
abbrev pub Unloadable : Handle → Type 0
Unloadable h =
    (bit_and h.tag Tag.engine_object ≢ Tag.engine_object)
    ⊎ ((bit_and h.tag tag_encode_output ≢ tag_encode_output)
        × (bit_and h.tag tag_encrypt_output ≢ tag_encrypt_output))

-- The handle that a call works on is not of the stage before: `encrypt` wants encoded data,
-- `decrypt` stored data, `decode` decrypted data, `load` encoded or encrypted data, and `operate`,
-- with indexers of one value, loaded data.
abbrev pub IsMisused : CodeCall → World Payload → Type 0
IsMisused (CodeCall.decode h d p) w = Unreadable d tag_decrypt_output
IsMisused (CodeCall.encrypt h d out) w = Unreadable d tag_encode_output
IsMisused (CodeCall.decrypt h d out) w = Unreadable d tag_store_output
IsMisused (CodeCall.load h p count out) w =
    (count ≡ 1)
    × (d : Handle) × (rest : List Handle) × (lookup p w.heap ≡ some (handles (d ∷ rest)))
    × Unloadable d
IsMisused (CodeCall.operate h d p count out) w =
    Unreadable d tag_load_output
    × (array : List ParameterIndexer) × (lookup p w.heap ≡ some (indexers array))
    × ((j : ℕ) → j < 2 → j < count → get_elem? array j ≡ some one_value)
IsMisused c w = ⊥

lacks :
    (d : Handle)
    → Unloadable d
    → (bit_and d.tag Tag.engine_object ≢ Tag.engine_object)
      ⊎ (bit_and d.tag (
            if bit_and d.tag tag_encode_output == tag_encode_output
            then tag_encode_output
            else tag_encrypt_output)
          ≢ (if bit_and d.tag tag_encode_output == tag_encode_output
              then tag_encode_output
              else tag_encrypt_output))
lacks d (inl plain) = inl plain
lacks d (inr (no_encode, no_encrypt)) = inr (ground arith)

-- A failure of the backend with the critical error, as the caller sees it.
settle-Reports :
    {P : Type 0} (b : Backend P) (p : Address) (o : Outcome P (Option Handle)) (w : World P)
    → Fails ecode_critical_error w o
    → Reports ecode_critical_error w (settle b p o)
settle-Reports b p (throws (hebench_error text code) v) w f = ground (arith, f)
settle-Reports b p o w f = absurd f

with_result-Fails :
    {P : Type 0} (m : M P Handle) (w : World P)
    → Fails ecode_critical_error w (m w)
    → Fails ecode_critical_error w (with_result m w)
with_result-Fails m w = by_outcome (m w)
  where
    by_outcome :
        (o : Outcome _ Handle)
        → Fails ecode_critical_error w o
        → Fails ecode_critical_error w (with_result (λ _. o) w)
    by_outcome (throws (hebench_error text code) v) f = f
    by_outcome o f = absurd f

module _ (platform : Platform) (this : Address) (bench : Benchmark) (w : World Payload)
    (at : lookup this w.heap ≡ some (benchmark bench)) where
  load-Fails :
      (p : Address) (d : Handle) (rest : List Handle)
      → p ≢ 0
      → lookup p w.heap ≡ some (handles (d ∷ rest))
      → Unloadable d
      → Fails ecode_critical_error w (load this p 1 w)
  unfolding load
  load-Fails p d rest ne there bad =
      let expected =
        if bit_and d.tag tag_encode_output == tag_encode_output
        then tag_encode_output
        else tag_encrypt_output in
      let e : load this p 1 w ≡ duplicate_handle_as bench.engine d tag_load_output expected w =
        ground (arith, at, there, ne) in
      subst (Fails ecode_critical_error w) (sym e)
        (duplicate_handle_as-lacks bench.engine d tag_load_output expected w (lacks d bad))

  operate-Fails :
      (d : Handle) (p count : ℕ) (array : List ParameterIndexer)
      → Unreadable d tag_load_output
      → lookup p w.heap ≡ some (indexers array)
      → ((j : ℕ) → j < 2 → j < count → get_elem? array j ≡ some one_value)
      → Fails ecode_critical_error w (operate platform this d p count w)
  unfolding operate
  operate-Fails d p count array bad there good =
      let left = if ltb count num_operands then count else num_operands in
      let passes =
        indexers_pass p array left 0 w there (λ j lt. good j (ground arith) (ground arith)) in
      ground (arith, at, passes, retrieve_from_handle-throws d tag_load_output w bad)

  ask-Fails :
      (c : CodeCall)
      → IsComplete c w
      → IsMisused c w
      → Fails ecode_critical_error w (ask (example platform) c this w)
  unfolding decode encrypt decrypt
  ask-Fails (CodeCall.decode h d p) complete bad =
      ground (arith, at, retrieve_from_handle-throws d tag_decrypt_output w bad)
  ask-Fails (CodeCall.encrypt h d out) complete bad =
      ground (arith, at, retrieve_from_handle-throws d tag_encode_output w bad)
  ask-Fails (CodeCall.decrypt h d out) complete bad =
      ground (arith, at, retrieve_from_handle-throws d tag_store_output w bad)
  ask-Fails (CodeCall.load h p count out) (ne, some_handle, cell) (one, d, rest, there, bad) =
      with_result-Fails (load this p count) w (
        subst (λ n. Fails ecode_critical_error w (load this p n w)) (sym one)
          (load-Fails p d rest ne there bad))
  ask-Fails (CodeCall.operate h d p count out) complete (bad, array, there, good) =
      with_result-Fails (operate platform this d p count) w
        (operate-Fails d p count array bad there good)
  ask-Fails c complete bad = absurd bad

-- A call on a benchmark that is alive, with all its arguments but a handle of another stage than the
-- one before, returns the critical error, leaves it as the last error, and touches neither memory
-- nor the table of error codes: `encrypt` takes encoded data only, `decrypt` stored data, `decode`
-- decrypted data, `load`, as one handle, encoded or encrypted data, and `operate`, with indexers of
-- one value, loaded data.
pub run_code-misused :
    (platform : Platform) (c : CodeCall) (bh : BenchmarkHandle) (bench : Benchmark)
    (w : World Payload)
    → IsAsked c bh w
    → lookup bh.p_benchmark w.heap ≡ some (benchmark bench)
    → IsMisused c w
    → Reports ecode_critical_error w (run_code (example platform) c w)
run_code-misused platform c bh bench w asked at bad =
    subst (Reports ecode_critical_error w) (sym (run_code-settles (example platform) c bh w asked))
      (settle-Reports (example platform) (output c) (ask (example platform) c bh.p_benchmark w) w
        (ask-Fails platform bh.p_benchmark bench w at c asked.2 bad))
