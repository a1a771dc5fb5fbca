-- ===== src/Engine/Handles/Destroy.antt =====
-- Destroying a handle keeps the invariant of reference-counted handles, and every other handle.
use api_bridge.Base.{◌+◌, ◌-◌, ◌≡◌, ◌≢◌, refl, none, some, arith, ◌==◌, inl, inr, Bool-cases}
use api_bridge.Types.{Address}
use api_bridge.Memory.{
  EngineObject, Shared, World, Object, Heap, Fresh, lookup, erase, engine_object, shared,
  lookup-insert, lookup-erase_ne, lookup-erase_self, lookup_lt, insert-Fresh, erase-Fresh,
}
use api_bridge.Engine.Handles.Results.{destroyed}
use api_bridge.Engine.Handles.Sound.{IsSound}
use api_bridge.Engine.Handles.Owners.{owns, owners, owners-insert, owners-erase, owns-le-owners}

module _ {P : Type 0} where
  -- Destroying a handle: `obj` is alive at `p`, and `s` is its block.
  module _ (p : Address) (obj : EngineObject) (s : Shared P) (w : World P) (v : IsSound w)
      (at : lookup p w.heap ≡ some (engine_object obj))
      (block : lookup obj.p_obj w.heap ≡ some (shared s)) where
    abbrev without : Heap (Object P)
    without = erase p w.heap

    block_stays : lookup obj.p_obj without ≡ some (shared s)
    block_stays = ground (arith, lookup-erase_ne p obj.p_obj w.heap)

    gone : lookup p without ≡ none
    gone = lookup-erase_self w.next p w.heap v.fresh

    stays : (a : Address) (o : Object P) → lookup a without ≡ some o → lookup a w.heap ≡ some o
    stays a o e = ground (arith, gone, lookup-erase_ne p a w.heap)

    -- Owners before and after.
    fewer : (a : Address) → owners a without + owns {P = P} a (engine_object obj) ≡ owners a w.heap
    fewer a = owners-erase a p (engine_object obj) w.heap at

    destroyed-Fresh : Fresh w.next (destroyed p obj s w).heap
    destroyed-Fresh = ground (
      arith,
      erase-Fresh w.next p w.heap v.fresh,
      erase-Fresh w.next obj.p_obj without,
      lookup_lt w.next obj.p_obj (shared s) w.heap v.fresh block,
      insert-Fresh w.next obj.p_obj (shared (record s { use_count = s.use_count - 1 })) without,
    )

    destroyed_counted :
        (a : Address) (t : Shared P)
        → lookup a (destroyed p obj s w).heap ≡ some (shared t)
        → t.use_count ≡ owners a (destroyed p obj s w).heap
    destroyed_counted a t e = ground (
      arith,
      stays a (shared t),
      fewer a,
      v.counted a t,
      v.counted obj.p_obj s block,
      lookup-erase_self w.next obj.p_obj without (erase-Fresh w.next p w.heap v.fresh),
      lookup-erase_ne obj.p_obj a without,
      lookup-insert obj.p_obj a (shared (record s { use_count = s.use_count - 1 })) without,
      owners-erase a obj.p_obj (shared s) without block_stays,
      owners-insert a obj.p_obj (shared (record s { use_count = s.use_count - 1 })) (shared s)
          without block_stays,
    )

    abbrev left : Object P
    left = shared (record s { use_count = s.use_count - 1 })

    -- What another address holds, if it is not the block.
    elsewhere :
        (a : Address) → a ≢ obj.p_obj → lookup a (destroyed p obj s w).heap ≡ lookup a without
    elsewhere a ne =
        ground (arith, lookup-erase_ne obj.p_obj a without, lookup-insert obj.p_obj a left without)

    block_left : s.use_count ≢ 1 → lookup obj.p_obj (destroyed p obj s w).heap ≡ some left
    block_left ne = ground (arith, lookup-insert obj.p_obj obj.p_obj left without)

    block_gone : s.use_count ≡ 1 → lookup obj.p_obj (destroyed p obj s w).heap ≡ none
    block_gone e =
        ground
          (arith, lookup-erase_self w.next obj.p_obj without (erase-Fresh w.next p w.heap v.fresh))

    -- A second owner makes the count at least two.
    second_owner :
        (q : Address) (o : EngineObject)
        → q ≢ p
        → lookup q w.heap ≡ some (engine_object o)
        → o.p_obj ≡ obj.p_obj
        → s.use_count ≢ 1
    second_owner q o ne e same = ground (
      arith,
      v.counted obj.p_obj s block,
      fewer obj.p_obj,
      lookup-erase_ne p q w.heap ne,
      owns-le-owners obj.p_obj q (engine_object o) without,
    )

    pub destroyed-object :
        (q : Address) (o : EngineObject)
        → q ≢ p
        → lookup q w.heap ≡ some (engine_object o)
        → lookup q (destroyed p obj s w).heap ≡ some (engine_object o)
    destroyed-object q o ne e = ground (arith, elsewhere q, lookup-erase_ne p q w.heap ne)

    -- The block of another object is there, with its value.
    pub destroyed-block :
        (q : Address) (o : EngineObject) (t : Shared P)
        → q ≢ p
        → lookup q w.heap ≡ some (engine_object o)
        → lookup o.p_obj w.heap ≡ some (shared t)
        → (u : Shared P) × (lookup o.p_obj (destroyed p obj s w).heap ≡ some (shared u))
          × (u.value ≡ t.value)
    destroyed-block q o t ne e there = elim (Bool-cases (o.p_obj == obj.p_obj)) [
      | inl same ↦ (
        record s { use_count = s.use_count - 1 },
        ground (arith, second_owner q o ne e, block_left),
        ground arith,
      )
      | inr other ↦ (t, ground (arith, elsewhere o.p_obj, lookup-erase_ne p o.p_obj w.heap), refl)
    ]

    -- An object that is left was there before, and is another.
    pub old_object :
        (q : Address) (o : EngineObject)
        → lookup q (destroyed p obj s w).heap ≡ some (engine_object o)
        → (q ≢ p) × (lookup q w.heap ≡ some (engine_object o))
    old_object q o e = elim (Bool-cases (q == obj.p_obj)) [
      | inl same ↦ ground (arith, block_left, block_gone)
      | inr other ↦
          let there : lookup q without ≡ some (engine_object o) = ground (arith, elsewhere q) in
          (ground (arith, gone), stays q (engine_object o) there)
    ]

    destroyed_alive :
        (q : Address) (o : EngineObject)
        → lookup q (destroyed p obj s w).heap ≡ some (engine_object o)
        → (t : Shared P) × (lookup o.p_obj (destroyed p obj s w).heap ≡ some (shared t))
    destroyed_alive q o e =
        let (ne, old) = old_object q o e in
        let (t, there) = v.alive q o old in
        let (u, found, same) = destroyed-block q o t ne old there in (u, found)

    destroyed_owned :
        (a : Address) (t : Shared P)
        → lookup a (destroyed p obj s w).heap ≡ some (shared t)
        → t.use_count ≢ 0
    destroyed_owned a t e = ground (
      arith,
      v.owned a t,
      v.owned obj.p_obj s block,
      elsewhere a,
      block_left,
      block_gone,
      stays a (shared t),
    )

    pub destroyed-IsSound : IsSound (destroyed p obj s w)
    destroyed-IsSound = record {
      fresh = destroyed-Fresh;
      null_free = ground (arith, v.null_free, elsewhere 0, lookup-erase_ne p 0 w.heap);
      started = v.started;
      counted = destroyed_counted;
      owned = destroyed_owned;
      alive = destroyed_alive;
    }

    -- The handle itself is gone.
    pub destroyed_self : lookup p (destroyed p obj s w).heap ≡ none
    destroyed_self = ground (arith, gone, elsewhere p)
