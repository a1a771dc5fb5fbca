-- ===== src/Example/Session/Delivers.antt =====
-- The calls of hebench/api_bridge/src/main.cpp that deliver a handle to the caller, on the example
-- backend.
use api_bridge.Base.{ℕ, ◌≡◌, arith, some, List, ◌∷◌, bit_or}
use api_bridge.Types.{Address, ErrorCode, ecode_success, Handle}
use api_bridge.Types.Tag
use api_bridge.Memory.{World, Outcome, returns, M, ◌>>=◌, lookup, handles, lookup-insert_self}
use api_bridge.Engine.Handles.Sound.{IsSound}
use api_bridge.Engine.Handles.Sharing.{Holds, Keeps}
use api_bridge.Engine.Handles.Caller.{
  IsGiven, Stays, written, written-IsSound, written-Keeps, written-Stays,
}
use api_bridge.Api.{returns_code, assign_handle, catch_code}
use api_bridge.Backend.{Backend}

module _ {P : Type 0} where
  -- A cell of the caller for a handle, or an array of handles that is not empty.
  abbrev pub IsCell : Address → World P → Type 0
  IsCell p w =
      (old : Handle) × (rest : List Handle) × (lookup p w.heap ≡ some (handles (old ∷ rest)))

  -- A call's success: the first handle at an address is a new one that holds this value; the memory
  -- is sound, every handle keeps its value and all else stays as it was.
  pub record Delivered (p this : Address) (tags : ℕ) (value : P) (w v : World P) : Type 0 where
    pub given : Handle
    pub rest : List Handle
    pub cell : lookup p v.heap ≡ some (handles (given ∷ rest))
    pub tagged : given.tag ≡ bit_or Tag.engine_object tags
    pub sound : IsSound v
    pub holds : Holds this value given v
    pub keeps : Keeps 0 w v
    pub stays : Stays p w v

  abbrev pub Delivers : Address → Address → ℕ → P → World P → Outcome P ErrorCode → Type 0
  Delivers p this tags value w r =
      (v : World P) × (r ≡ returns ecode_success v) × Delivered p this tags value w v

  abbrev pub deliver : Backend P → Address → M P Handle → M P ErrorCode
  deliver b p m = returns_code b (m >>= assign_handle p)

  deliver_runs :
      (b : Backend P) (p : Address) (m : M P Handle) (g old : Handle) (rest : List Handle)
      (w u : World P)
      → m w ≡ returns g u
      → lookup p u.heap ≡ some (handles (old ∷ rest))
      → deliver b p m w ≡ returns ecode_success (written p (handles (g ∷ rest)) u)
  unfolding catch_code
  deliver_runs b p m g old rest w u run cell = ground (arith, run, cell)

  -- The write of a new handle to a cell of the caller.
  pub written-Delivered :
      (p this : Address) (tags : ℕ) (value : P) (g old : Handle) (rest : List Handle)
      (w u : World P)
      → IsSound w
      → lookup p w.heap ≡ some (handles (old ∷ rest))
      → IsGiven this tags value w g u
      → (lookup p u.heap ≡ some (handles (old ∷ rest)))
        × Delivered p this tags value w (written p (handles (g ∷ rest)) u)
  written-Delivered p this tags value g old rest w u safe cell given =
      let there : lookup p u.heap ≡ some (handles (old ∷ rest)) =
        given.stays p (handles (old ∷ rest)) tt (ground (arith, safe.null_free, cell)) cell in
      let kept = written-Keeps p (handles (old ∷ rest)) (handles (g ∷ rest)) u there tt tt in
      (
        there,
        record {
          given = g;
          rest = rest;
          cell = lookup-insert_self p (handles (g ∷ rest)) u.heap;
          tagged = given.tagged;
          sound =
              written-IsSound p (handles (old ∷ rest)) (handles (g ∷ rest)) u there tt tt
                given.sound;
          holds = kept this value g given.holds.nonnull given.holds;
          keeps = λ that x h nonnull o. kept that x h nonnull (given.keeps that x h nonnull o);
          stays = λ a o plain other at.
              written-Stays p (handles (old ∷ rest)) (handles (g ∷ rest)) u there tt tt a o plain
                other (given.stays a o plain (ground (arith, safe.null_free, at)) at);
        },
      )

  pub deliver-Delivers :
      (b : Backend P) (p this : Address) (tags : ℕ) (value : P) (m : M P Handle) (w : World P)
      → IsSound w
      → IsCell p w
      → (g : Handle) × (u : World P) × (m w ≡ returns g u) × IsGiven this tags value w g u
      → Delivers p this tags value w (deliver b p m w)
  deliver-Delivers b p this tags value m w safe (old, rest, cell) (g, u, run, given) =
      let (there, delivered) = written-Delivered p this tags value g old rest w u safe cell given in
      (written p (handles (g ∷ rest)) u, deliver_runs b p m g old rest w u run there, delivered)
