-- ===== src/Api/Asks.antt =====
-- The functions of hebench/api_bridge/src/main.cpp on a benchmark, seen from both sides: what each
-- asks of the backend, and what the caller gets for each way in which the backend can end.
use api_bridge.Base.{
  ℕ, ◌+◌, ◌-◌, ◌<◌, ◌≤◌, ◌≡◌, ◌≢◌, refl, Option, none, some, List, [], ◌∷◌, min, length, arith, ◌⊎◌,
  ◌∙◌, ap,
}
use api_bridge.Types.{
  Address, ErrorCode, ecode_success, ecode_critical_error, Handle, null_handle, BenchmarkDescriptor,
  DataPackCollection,
}
use api_bridge.Memory.{
  Exception, hebench_error, standard, library, unmatched, World, Object, BenchmarkHandle, Outcome,
  returns, throws, undefined, M, ◌>>=◌, ◌>>◌, pure, deref, bind?, lookup, insert, handles, chars,
  benchmark_handle, bench_descriptor, pack_collection, as_handles, as_bench_descriptor,
}
use api_bridge.Backend.{Backend}
use api_bridge.Utilities.Laws.{terminated}
use api_bridge.Api.{what, catch_code, returns_code, assign_handle}
use api_bridge.Api.Calls.{CodeCall, SizeCall, run_code, run_size}
use api_bridge.Api.Benchmarks
use api_bridge.Api.Texts.{run_size-stores}

-- The arguments that a call on a benchmark needs: an object behind the handle, no null pointer, and
-- packs where any are announced. Other calls are not on a benchmark.
abbrev pub IsComplete : {P : Type 0} → CodeCall → World P → Type 0
IsComplete (CodeCall.init_benchmark h p) w =
    (d : BenchmarkDescriptor) × (p ≢ 0) × (lookup p w.heap ≡ some (bench_descriptor d))
IsComplete (CodeCall.encode h p out) w =
    (c : DataPackCollection) × (p ≢ 0)
    × (lookup p w.heap ≡ some (pack_collection c))
    × ((c.p_data_packs ≢ 0) ⊎ (c.pack_count ≡ 0))
    × (out ≢ 0)
IsComplete (CodeCall.decode h d p) w = (d.p ≢ 0) × (p ≢ 0)
IsComplete (CodeCall.encrypt h d out) w = (d.p ≢ 0) × (out ≢ 0)
IsComplete (CodeCall.decrypt h d out) w = (d.p ≢ 0) × (out ≢ 0)
IsComplete (CodeCall.load h p count out) w = (p ≢ 0) × (count ≢ 0) × (out ≢ 0)
IsComplete (CodeCall.store h d p count) w = (d.p ≢ 0) × (p ≢ 0)
IsComplete (CodeCall.operate h d p count out) w = (d.p ≢ 0) × (p ≢ 0) × (out ≢ 0)
IsComplete c w = ⊥

-- The handle of the benchmark that a call is on.
abbrev pub benchmark_of : CodeCall → Handle
benchmark_of (CodeCall.init_benchmark h p) = h
benchmark_of (CodeCall.encode h p out) = h
benchmark_of (CodeCall.decode h d p) = h
benchmark_of (CodeCall.encrypt h d out) = h
benchmark_of (CodeCall.decrypt h d out) = h
benchmark_of (CodeCall.load h p count out) = h
benchmark_of (CodeCall.store h d p count) = h
benchmark_of (CodeCall.operate h d p count out) = h
benchmark_of c = null_handle

-- Where the caller wants the handle that the backend returns, if it returns one.
abbrev pub output : CodeCall → Address
output (CodeCall.encode h p out) = out
output (CodeCall.encrypt h d out) = out
output (CodeCall.decrypt h d out) = out
output (CodeCall.load h p count out) = out
output (CodeCall.operate h d p count out) = out
output c = 0

module _ {P : Type 0} where
  -- A handle for the caller.
  abbrev pub with_result : M P Handle → M P (Option Handle)
  with_result m = do g ← m; pure (some g)

  abbrev pub without_result : M P (Unit {0}) → M P (Option Handle)
  without_result m = do m; pure none

  abbrev pub IsAsked : CodeCall → BenchmarkHandle → World P → Type 0
  IsAsked c bh w =
      ((benchmark_of c).p ≢ 0)
      × (lookup (benchmark_of c).p w.heap ≡ some (benchmark_handle bh))
      × IsComplete c w

module _ {P : Type 0} (b : Backend P) where
  -- What a call asks of the backend, for the benchmark at an address.
  abbrev pub ask : CodeCall → Address → M P (Option Handle)
  ask (CodeCall.init_benchmark h p) q =
      without_result do d ← deref as_bench_descriptor p; b.initialize q d
  ask (CodeCall.encode h p out) q = with_result (b.encode q p)
  ask (CodeCall.decode h d p) q = without_result (b.decode q d p)
  ask (CodeCall.encrypt h d out) q = with_result (b.encrypt q d)
  ask (CodeCall.decrypt h d out) q = with_result (b.decrypt q d)
  ask (CodeCall.load h p count out) q = with_result (b.load q p count)
  ask (CodeCall.store h d p count) q = without_result (b.store q d p count)
  ask (CodeCall.operate h d p count out) q = with_result (b.operate q d p count)
  ask c q = λ w. undefined

  -- The code that an exception becomes.
  abbrev pub code_of : Exception → ErrorCode
  code_of (hebench_error text code) = code
  code_of e = ecode_critical_error

  -- What an exception leaves: its code and text as the last error, if it has a text.
  abbrev pub report : Exception → World P → World P
  report unmatched w = w
  report e w = record w { last_error = code_of e; last_error_description = what b e }

  -- The caller's cell for a handle.
  abbrev pub deliver : Option (List Handle) → Address → Handle → World P → Outcome P ErrorCode
  deliver (some (old ∷ rest)) p g w =
      returns ecode_success (record w { heap = insert p (handles (g ∷ rest)) w.heap })
  deliver _ p g w = undefined

  -- What the caller gets when the backend has ended.
  abbrev pub settle : Address → Outcome P (Option Handle) → Outcome P ErrorCode
  settle p (returns none w) = returns ecode_success w
  settle p (returns (some g) w) = deliver (bind? (lookup p w.heap) as_handles) p g w
  settle p (throws e w) = returns (code_of e) (report e w)
  settle p undefined = undefined

  delivered :
      (o : Option (Object P)) (p : Address) (g : Handle) (v : World P)
      → lookup p v.heap ≡ o
      → returns_code b (assign_handle p g) v ≡ deliver (bind? (lookup p v.heap) as_handles) p g v
  delivered (some (handles (old ∷ rest))) p g v e = ground (arith, e)
  delivered (some (handles [])) p g v e = ground (arith, e)
  delivered o p g v e = ground (arith, e)

  caught : (p : Address) (e : Exception) (v : World P) → catch_code b e v ≡ settle p (throws e v)
  unfolding catch_code
  caught p (hebench_error text code) v = refl
  caught p (standard kind text) v = refl
  caught p (library kind) v = refl
  caught p unmatched v = refl

  -- A body that stores the handle that the backend returns, and one for which it returns none.
  settled :
      (p : Address) (m : M P Handle) (w : World P)
      → returns_code b (do g ← m; assign_handle p g) w ≡ settle p (with_result m w)
  settled p m w = by_outcome (m w)
    where
      by_outcome :
          (o : Outcome P Handle)
          → returns_code b (do g ← (λ _. o); assign_handle p g) w
            ≡ settle p (with_result (λ _. o) w)
      by_outcome (returns g v) = delivered (lookup p v.heap) p g v refl
      by_outcome (throws e v) = caught p e v
      by_outcome undefined = refl

  settled_plain :
      (p : Address) (m : M P (Unit {0})) (w : World P)
      → returns_code b m w ≡ settle p (without_result m w)
  settled_plain p m w = by_outcome (m w)
    where
      by_outcome :
          (o : Outcome P (Unit {0}))
          → returns_code b (λ _. o) w ≡ settle p (without_result (λ _. o) w)
      by_outcome (returns tt v) = refl
      by_outcome (throws e v) = caught p e v
      by_outcome undefined = refl

  -- A call on a benchmark with all its arguments ends as the backend's function ends: a handle goes
  -- to the caller's cell, and nothing else changes after it; an exception becomes its code, or the
  -- critical error, and the last error with its text, unless it has none.
  pub run_code-settles :
      (c : CodeCall) (bh : BenchmarkHandle) (w : World P)
      → IsAsked c bh w
      → run_code b c w ≡ settle (output c) (ask c bh.p_benchmark w)
  unfolding run_code Benchmarks.init_benchmark Benchmarks.encode Benchmarks.decode
      Benchmarks.encrypt Benchmarks.decrypt Benchmarks.load Benchmarks.store Benchmarks.operate
  run_code-settles (CodeCall.init_benchmark h p) bh w (ne, at, (d, filled, there)) =
      let e : run_code b (CodeCall.init_benchmark h p) w
          ≡ returns_code b (do desc ← deref as_bench_descriptor p; b.initialize bh.p_benchmark desc)
              w =
        ground (arith, ne, at, filled, there) in
      e
      ∙ settled_plain 0 (do desc ← deref as_bench_descriptor p; b.initialize bh.p_benchmark desc) w
  run_code-settles (CodeCall.encode h p out) bh w
        (ne, at, (packs, filled, there, some_packs, cell)) =
      let e : run_code b (CodeCall.encode h p out) w
          ≡ returns_code b (do g ← b.encode bh.p_benchmark p; assign_handle out g) w =
        ground (arith, ne, at, filled, there, some_packs, cell) in
      e ∙ settled out (b.encode bh.p_benchmark p) w
  run_code-settles (CodeCall.decode h d p) bh w (ne, at, (full, filled)) =
      let e : run_code b (CodeCall.decode h d p) w
          ≡ returns_code b (b.decode bh.p_benchmark d p) w =
        ground (arith, ne, at, full, filled) in
      e ∙ settled_plain 0 (b.decode bh.p_benchmark d p) w
  run_code-settles (CodeCall.encrypt h d out) bh w (ne, at, (full, cell)) =
      let e : run_code b (CodeCall.encrypt h d out) w
          ≡ returns_code b (do g ← b.encrypt bh.p_benchmark d; assign_handle out g) w =
        ground (arith, ne, at, full, cell) in
      e ∙ settled out (b.encrypt bh.p_benchmark d) w
  run_code-settles (CodeCall.decrypt h d out) bh w (ne, at, (full, cell)) =
      let e : run_code b (CodeCall.decrypt h d out) w
          ≡ returns_code b (do g ← b.decrypt bh.p_benchmark d; assign_handle out g) w =
        ground (arith, ne, at, full, cell) in
      e ∙ settled out (b.decrypt bh.p_benchmark d) w
  run_code-settles (CodeCall.load h p count out) bh w (ne, at, (filled, some_handle, cell)) =
      let e : run_code b (CodeCall.load h p count out) w
          ≡ returns_code b (do g ← b.load bh.p_benchmark p count; assign_handle out g) w =
        ground (arith, ne, at, filled, some_handle, cell) in
      e ∙ settled out (b.load bh.p_benchmark p count) w
  run_code-settles (CodeCall.store h d p count) bh w (ne, at, (full, filled)) =
      let e : run_code b (CodeCall.store h d p count) w
          ≡ returns_code b (b.store bh.p_benchmark d p count) w =
        ground (arith, ne, at, full, filled) in
      e ∙ settled_plain 0 (b.store bh.p_benchmark d p count) w
  run_code-settles (CodeCall.operate h d p count out) bh w (ne, at, (full, filled, cell)) =
      let e : run_code b (CodeCall.operate h d p count out) w
          ≡ returns_code b (do g ← b.operate bh.p_benchmark d p count; assign_handle out g) w =
        ground (arith, ne, at, full, filled, cell) in
      e ∙ settled out (b.operate bh.p_benchmark d p count) w
  run_code-settles c bh w asked = absurd asked.2

  reported :
      (e : Exception) (u : World P)
      → e ≢ unmatched
      → report e u ≡ record u { last_error = code_of e; last_error_description = what b e }
  reported (hebench_error text code) u ne = refl
  reported (standard kind text) u ne = refl
  reported (library kind) u ne = refl
  reported unmatched u ne = absurd (ne refl)

  -- Where a backend's function throws an exception with a text, the call that asked for it returns
  -- the exception's code, or the critical error, and the caller who then asks for the last error
  -- gets as much of the text as the given size allows, with a terminator, and the size of the whole.
  pub get_last_error_description-run_code :
      (c : CodeCall) (bh : BenchmarkHandle) (w u : World P) (e : Exception) (h : Handle)
      (p size : ℕ) (buffer : List ℕ)
      → IsAsked c bh w
      → ask c bh.p_benchmark w ≡ throws e u
      → e ≢ unmatched
      → p ≢ 0
      → 0 < size
      → lookup p u.heap ≡ some (chars buffer)
      → min size (length (what b e) + 1) ≤ length buffer
      → (v : World P) × (run_code b c w ≡ returns (code_of e) v)
        × (v.last_error ≡ code_of e)
        × (run_size b (SizeCall.get_last_error_description h p size) v
            ≡ returns (length (what b e) + 1) (record v {
              heap =
                  insert p
                    (chars (terminated (min size (length (what b e) + 1) - 1) (what b e) buffer))
                    u.heap;
            }))
  get_last_error_description-run_code c bh w u e h p size buffer asked fails ne nonnull room at
        fits =
      let v = record u { last_error = code_of e; last_error_description = what b e } in
      (
        v,
        run_code-settles c bh w asked
            ∙ ap (settle (output c)) fails
            ∙ ap (returns (code_of e)) (reported e u ne),
        refl,
        run_size-stores b (SizeCall.get_last_error_description h p size) (what b e) buffer v refl
            nonnull room at fits,
      )
