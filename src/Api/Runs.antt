-- ===== src/Api/Runs.antt =====
-- Sequences of calls of the C API, of hebench/api_bridge/api.h, in any order and with any
-- arguments.
use api_bridge.Base.{ℕ, ◌≡◌, subst, List, [], ◌∷◌}
use api_bridge.Types.{ErrorCode}
use api_bridge.Memory.{World, returns}
use api_bridge.Backend.{Backend}
use api_bridge.Engine.Handles.Sound.{IsSound}
use api_bridge.Engine.Handles.Safe.{EndsSound}
use api_bridge.Api.Calls.{CodeCall, SizeCall, run_code, run_size}
use api_bridge.Api.Safe.{IsSafeBackend, run_code-IsSafe, run_size-IsSafe}

pub data Call : Type 0 where
  code : CodeCall → Call
  size : SizeCall → Call

module _ {P : Type 0} (b : Backend P) where
  -- A call that returns, with success or with an error, and what memory it leaves.
  abbrev pub Returns : Call → World P → World P → Type 0
  Returns (code c) w v = (n : ErrorCode) × (run_code b c w ≡ returns n v)
  Returns (size c) w v = (n : ℕ) × (run_size b c w ≡ returns n v)

  abbrev pub Runs : List Call → World P → World P → Type 0
  Runs [] w v = w ≡ v
  Runs (c ∷ cs) w v = (u : World P) × Returns c w u × Runs cs u v

module _ {P : Type 0} (b : Backend P) (laws : IsSafeBackend b) where
  Returns-IsSound : (c : Call) (w v : World P) → IsSound w → Returns b c w v → IsSound v
  Returns-IsSound (code c) w v sound (n, e) =
      subst EndsSound e ((run_code-IsSafe b laws c).ends w sound)
  Returns-IsSound (size c) w v sound (n, e) =
      subst EndsSound e ((run_size-IsSafe b laws c).ends w sound)

  -- If each function of the backend keeps the invariant of reference-counted handles, then after any
  -- sequence of calls of the C API that return, with any arguments and with success or an error,
  -- that starts in a sound memory, the memory is sound: every block counts its owners, of which it
  -- has one at least, and no owner dangles.
  pub Runs-IsSound : (cs : List Call) (w v : World P) → IsSound w → Runs b cs w v → IsSound v
  Runs-IsSound [] w v sound same = subst IsSound same sound
  Runs-IsSound (c ∷ cs) w v sound (u, run, rest) =
      Runs-IsSound cs u v (Returns-IsSound c w u sound run) rest
