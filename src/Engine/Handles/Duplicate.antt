-- ===== src/Engine/Handles/Duplicate.antt =====
-- Duplicating a handle keeps the invariant of reference-counted handles.
use api_bridge.Base.{◌+◌, ◌≡◌, ◌≢◌, some, arith, ◌==◌, inl, inr, Bool-cases}
use api_bridge.Types.{Address}
use api_bridge.Memory.{
  EngineObject, Shared, World, Fresh, lookup, insert, engine_object, shared, lookup-insert,
  lookup_above, lookup_lt, Fresh-mono, insert-Fresh,
}
use api_bridge.Engine.Handles.Results.{shared_again}
use api_bridge.Engine.Handles.Sound.{IsSound}
use api_bridge.Engine.Handles.Owners.{owners, owners-insert}

module _ {P : Type 0} where
  -- Duplicating a handle: `obj` is alive at `p`, and `s` is its block.
  module _ (p : Address) (obj : EngineObject) (s : Shared P) (w : World P) (v : IsSound w)
      (at : lookup p w.heap ≡ some (engine_object obj))
      (block : lookup obj.p_obj w.heap ≡ some (shared s)) where
    again-Fresh : Fresh (shared_again obj s w).next (shared_again obj s w).heap
    again-Fresh =
        let below = lookup_lt w.next obj.p_obj (shared s) w.heap v.fresh block in
        ground (
          arith,
          below,
          lookup_above w.next w.next w.heap v.fresh,
          lookup-insert obj.p_obj w.next (shared (record s { use_count = s.use_count + 1 })) w.heap,
          Fresh-mono w.next
              (insert obj.p_obj (shared (record s { use_count = s.use_count + 1 })) w.heap)
              (insert-Fresh w.next obj.p_obj _ w.heap v.fresh below),
        )

    again_counted :
        (a : Address) (t : Shared P)
        → lookup a (shared_again obj s w).heap ≡ some (shared t)
        → t.use_count ≡ owners a (shared_again obj s w).heap
    again_counted a t e = ground (
      arith,
      v.counted a t,
      v.counted obj.p_obj s block,
      lookup-insert obj.p_obj a (shared (record s { use_count = s.use_count + 1 })) w.heap,
      owners-insert a obj.p_obj (shared (record s { use_count = s.use_count + 1 })) (shared s)
          w.heap block,
    )

    again_alive :
        (q : Address) (o : EngineObject)
        → lookup q (shared_again obj s w).heap ≡ some (engine_object o)
        → (t : Shared P) × (lookup o.p_obj (shared_again obj s w).heap ≡ some (shared t))
    again_alive q o e = elim (Bool-cases (o.p_obj == obj.p_obj)) [
      | inl same ↦ (
        record s { use_count = s.use_count + 1 },
        ground (
          arith,
          lookup_lt w.next obj.p_obj (shared s) w.heap v.fresh block,
          lookup-insert obj.p_obj o.p_obj (shared (record s { use_count = s.use_count + 1 }))
              w.heap,
        ),
      )
      | inr other ↦
          let found : lookup q w.heap ≡ some (engine_object o) = ground (
            arith,
            lookup-insert obj.p_obj q (shared (record s { use_count = s.use_count + 1 })) w.heap,
          ) in
          let (t, there) = v.alive q o found in
          (
            t,
            ground (
              arith,
              lookup_lt w.next o.p_obj (shared t) w.heap v.fresh there,
              lookup-insert obj.p_obj o.p_obj (shared (record s { use_count = s.use_count + 1 }))
                  w.heap,
            ),
          )
    ]

    again_owned :
        (a : Address) (t : Shared P)
        → lookup a (shared_again obj s w).heap ≡ some (shared t)
        → t.use_count ≢ 0
    again_owned a t e = ground (
      arith,
      v.owned a t,
      lookup-insert obj.p_obj a (shared (record s { use_count = s.use_count + 1 })) w.heap,
    )

    pub shared_again-IsSound : IsSound (shared_again obj s w)
    shared_again-IsSound = record {
      fresh = again-Fresh;
      null_free = ground (
        arith,
        v.null_free,
        v.started,
        lookup-insert obj.p_obj 0 (shared (record s { use_count = s.use_count + 1 })) w.heap,
      );
      started = omega arith;
      counted = again_counted;
      owned = again_owned;
      alive = again_alive;
    }
