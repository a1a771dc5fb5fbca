-- ===== src/Engine/Handles/Sound.antt =====
-- Every block counts its owners, of which it has one at least, and no owner dangles: the invariant
-- of reference-counted handles, and that a new handle keeps it.
use api_bridge.Base.{ℕ, suc, ◌≡◌, ◌≢◌, refl, none, some, arith, ◌==◌, inl, inr, [], ◌∷◌, Bool-cases}
use api_bridge.Types.{Address}
use api_bridge.Memory.{
  EngineObject, Shared, World, Object, Heap, Fresh, lookup, engine_object, shared, lookup_above,
  lookup_lt, Fresh-mono,
}
use api_bridge.Engine.Handles.Results.{created}
use api_bridge.Engine.Handles.Owners.{owners}

module _ {P : Type 0} where
  pub record IsSound (w : World P) : Type 0 where
    pub fresh : Fresh w.next w.heap
    pub null_free : lookup 0 w.heap ≡ none
    pub started : w.next ≢ 0
    pub counted :
        (a : Address) (s : Shared P)
        → lookup a w.heap ≡ some (shared s)
        → s.use_count ≡ owners a w.heap
    pub owned : (a : Address) (s : Shared P) → lookup a w.heap ≡ some (shared s) → s.use_count ≢ 0
    pub alive :
        (q : Address) (obj : EngineObject)
        → lookup q w.heap ≡ some (engine_object obj)
        → (s : Shared P) × (lookup obj.p_obj w.heap ≡ some (shared s))

  -- No object of a sound memory holds an address that is not in it.
  pub unowned :
      (n : ℕ) (a : Address) (h : Heap (Object P))
      → Fresh n h
      → ((q : Address) (obj : EngineObject) → lookup q h ≡ some (engine_object obj) → obj.p_obj ≢ a)
      → owners a h ≡ 0
  unowned n a [] f free = refl
  unowned n a ((k, engine_object obj) ∷ h) f free =
      ground (arith, free k obj, unowned n a h f.2 (λ q o e. free q o (ground (arith, f.1))))
  unowned n a ((k, o) ∷ h) f free =
      omega (arith, unowned n a h f.2 (λ q p e. free q p (ground (arith, f.1))))

  unowned_next : (w : World P) → IsSound w → owners w.next w.heap ≡ 0
  unowned_next w v = unowned w.next w.next w.heap v.fresh λ q obj e same.
      let (s, block) = v.alive q obj e in
      ground (arith, lookup_above w.next obj.p_obj w.heap v.fresh)

  -- Creating a handle.
  module _ (this : Address) (value : P) (w : World P) (v : IsSound w) where
    created-Fresh : Fresh (created this value w).next (created this value w).heap
    created-Fresh = ground (
      arith,
      lookup_above w.next w.next w.heap v.fresh,
      lookup_above w.next (suc w.next) w.heap v.fresh,
      Fresh-mono w.next w.heap v.fresh,
      Fresh-mono (suc w.next) w.heap,
    )

    created_counted :
        (a : Address) (s : Shared P)
        → lookup a (created this value w).heap ≡ some (shared s)
        → s.use_count ≡ owners a (created this value w).heap
    created_counted a s e = ground (arith, unowned_next w v, v.counted a s)

    created_alive :
        (q : Address) (obj : EngineObject)
        → lookup q (created this value w).heap ≡ some (engine_object obj)
        → (s : Shared P) × (lookup obj.p_obj (created this value w).heap ≡ some (shared s))
    created_alive q obj e = elim (Bool-cases (q == suc w.next)) [
      | inl new ↦ (record { value = value; use_count = 1 }, ground arith)
      | inr old ↦
          let at : lookup q w.heap ≡ some (engine_object obj) = ground arith in
          let (s, block) = v.alive q obj at in
          (s, ground (arith, lookup_lt w.next obj.p_obj (shared s) w.heap v.fresh block))
    ]

    pub created-IsSound : IsSound (created this value w)
    created-IsSound = record {
      fresh = created-Fresh;
      null_free = ground (arith, v.null_free, v.started);
      started = omega arith;
      counted = created_counted;
      owned = λ a s e. ground (arith, v.owned a s);
      alive = created_alive;
    }
