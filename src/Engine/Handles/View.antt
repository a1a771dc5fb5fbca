-- ===== src/Engine/Handles/View.antt =====
-- What a client sees of the memory: for each handle's address, the engine that created it and the
-- value that it holds. Blocks, their counts and who shares them are not seen.
use api_bridge.Base.{
  suc, ◌+◌, ◌≡◌, ◌≢◌, refl, sym, ◌∙◌, Option, none, some, arith, ◌==◌, if◌then◌else◌, inl, inr,
  Bool-cases, Option-cases, bit_and,
}
use mathlib.Core.Path.{fun_ext}
use api_bridge.Types.{Address, Handle}
use api_bridge.Types.Tag
use api_bridge.Memory.{
  EngineObject, Shared, Object, Heap, World, lookup, engine_object, shared, bind?, as_engine_object,
  as_shared, lookup-insert,
}
use api_bridge.Engine.Handles.Results.{created, shared_again, destroyed}
use api_bridge.Engine.Handles.Sound.{IsSound}
use api_bridge.Engine.Handles.Destroy.{old_object}
use api_bridge.Engine.Handles.Sharing.{Holds, Keeps}

-- A store has for each address an engine and a value, if a handle has that address.
abbrev pub Store : Type 0 → Type 0
Store P = Address → Option (Address × P)

bind?-eq-some :
    {A B : Type 0} (o : Option A) (f : A → Option B) {b : B}
    → bind? o f ≡ some b
    → (a : A) × (o ≡ some a) × (f a ≡ some b)
bind?-eq-some none f e = cc
bind?-eq-some (some a) f e = (a, refl, e)

-- The handle with just the tag of objects.
abbrev pub plain_handle : Address → Handle
plain_handle q = record { p = q; size = 0; tag = Tag.engine_object }

module _ {P : Type 0} where
  abbrev pub view_object : Heap (Object P) → EngineObject → Option (Address × P)
  view_object h obj = bind? (bind? (lookup obj.p_obj h) as_shared) λ s. some (obj.engine, s.value)

  abbrev pub view : World P → Store P
  view w q = bind? (bind? (lookup q w.heap) as_engine_object) (view_object w.heap)

  abbrev pub put : Address → Option (Address × P) → Store P → Store P
  put p entry store q = if q == p then entry else store q

  as_engine_object-eq-some :
      (o : Option (Object P)) (obj : EngineObject)
      → bind? o as_engine_object ≡ some obj
      → o ≡ some (engine_object obj)
  as_engine_object-eq-some (some (engine_object x)) obj e = cc
  as_engine_object-eq-some o obj e = cc

  as_shared-eq-some :
      (o : Option (Object P)) (s : Shared P) → bind? o as_shared ≡ some s → o ≡ some (shared s)
  as_shared-eq-some (some (shared x)) s e = cc
  as_shared-eq-some o s e = cc

  pub Holds-view :
      (this : Address) (x : P) (h : Handle) (w : World P)
      → Holds this x h w
      → view w h.p ≡ some (this, x)
  Holds-view this x h w o = ground (arith, o.at, o.block, o.same, o.own)

  pub view-Holds :
      (this : Address) (x : P) (h : Handle) (w : World P)
      → IsSound w
      → bit_and h.tag Tag.engine_object ≡ Tag.engine_object
      → view w h.p ≡ some (this, x)
      → Holds this x h w
  view-Holds this x h w v tagged seen =
      let (obj, at, inside) =
        bind?-eq-some (bind? (lookup h.p w.heap) as_engine_object) (view_object w.heap) seen in
      let (s, block, pair) =
        bind?-eq-some (bind? (lookup obj.p_obj w.heap) as_shared) (λ t. some (obj.engine, t.value))
          inside in
      let here = as_engine_object-eq-some (lookup h.p w.heap) obj at in
      record {
        nonnull = ground (arith, v.null_free, here);
        tagged = tagged;
        object = obj;
        at = here;
        own = ground (arith, pair);
        state = s;
        block = as_shared-eq-some (lookup obj.p_obj w.heap) s block;
        same = ground (arith, pair);
      }

  -- The objects of handles but for one were there before.
  abbrev pub Backs : Address → World P → World P → Type 0
  Backs p w v =
      (q : Address) (obj : EngineObject)
      → q ≢ p
      → lookup q v.heap ≡ some (engine_object obj)
      → lookup q w.heap ≡ some (engine_object obj)

  pub created-Backs :
      (this : Address) (value : P) (w : World P) → Backs (suc w.next) w (created this value w)
  created-Backs this value w q obj ne e = ground arith

  pub shared_again-Backs :
      (obj : EngineObject) (s : Shared P) (w : World P) → Backs w.next w (shared_again obj s w)
  shared_again-Backs obj s w q o ne e =
      ground (
        arith,
        lookup-insert obj.p_obj q (shared (record s { use_count = s.use_count + 1 })) w.heap,
      )

  pub destroyed-Backs :
      (p : Address) (obj : EngineObject) (s : Shared P) (w : World P)
      → IsSound w
      → lookup p w.heap ≡ some (engine_object obj)
      → lookup obj.p_obj w.heap ≡ some (shared s)
      → Backs p w (destroyed p obj s w)
  destroyed-Backs p obj s w v at block q o ne e = (old_object p obj s w v at block q o e).1

  module _ (p : Address) (w v : World P) (sound : IsSound w) (keeps : Keeps p w v)
      (backs : Backs p w v) where
    view_kept : (q e : Address) (x : P) → q ≢ p → view w q ≡ some (e, x) → view v q ≡ some (e, x)
    view_kept q e x ne seen =
        Holds-view e x (plain_handle q) v
          (keeps e x (plain_handle q) ne (view-Holds e x (plain_handle q) w sound refl seen))

    view_empty : (q : Address) → q ≢ p → view w q ≡ none → view v q ≡ none
    view_empty q ne empty = elim (Option-cases (bind? (lookup q v.heap) as_engine_object)) [
      | inl missing ↦ ground (arith, missing)
      | inr (obj, found) ↦
          let there = backs q obj ne (as_engine_object-eq-some (lookup q v.heap) obj found) in
          let (s, block) = sound.alive q obj there in absurd (ground (arith, there, block, empty))
    ]

    view_elsewhere : (q : Address) → q ≢ p → view v q ≡ view w q
    view_elsewhere q ne = elim (Option-cases (view w q)) [
      | inl empty ↦ view_empty q ne empty ∙ sym empty
      | inr (entry, seen) ↦ view_kept q entry.0 entry.1 ne seen ∙ sym seen
    ]

    -- An operation that leaves every other handle as it was changes one entry of the store.
    pub view_lem : (entry : Option (Address × P)) → view v p ≡ entry → view v ≡ put p entry (view w)
    view_lem entry here = fun_ext λ q. elim (Bool-cases (q == p)) [
      | inl same ↦ ground (arith, same, here)
      | inr other ↦ ground (arith, other, view_elsewhere q (ground (arith, other)))
    ]
