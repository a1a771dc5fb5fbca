-- ===== src/Engine/Handles/Clients.antt =====
-- Clients of handles, such as a backend: programs that create, duplicate, assign, destroy and read
-- handles, each step chosen by what the steps before it returned. For such a client the memory of
-- hebench/api_bridge/cpp/engine_object.hpp is a store in which every handle has a value of its own.
use api_bridge.Base.{
  ℕ, suc, ◌≡◌, ◌≢◌, refl, sym, ◌∙◌, subst, ◌⊎◌, inl, inr, none, some, arith, bit_and, bit_or, ◌==◌,
  Bool-cases,
}
use mathlib.Core.Path.{fun_ext}
use api_bridge.Types.{Address, Handle}
use api_bridge.Types.Tag
use api_bridge.Memory.{World, returns, M, ◌>>=◌, ◌>>◌, pure, lookup, lookup_above}
use api_bridge.Engine.Handles.{
  create_handle, duplicate_handle_as, assign_engine_object, destroy_obj, retrieve_from_handle,
}
use api_bridge.Engine.Handles.Results.{
  object_handle, created, shared_again, destroyed, create_handle_lem, duplicate_handle_as_lem,
  destroy_obj_lem,
}
use api_bridge.Engine.Handles.Sound.{IsSound, created-IsSound}
use api_bridge.Engine.Handles.Duplicate.{shared_again-IsSound}
use api_bridge.Engine.Handles.Destroy.{destroyed-IsSound, destroyed_self}
use api_bridge.Engine.Handles.Sharing.{
  Keeps, created-Keeps, created-Holds, shared_again-Keeps, shared_again-Holds, destroyed-Keeps,
  block_nonnull, retrieve_from_handle-Holds,
}
use api_bridge.Engine.Handles.Assign.{assign_engine_object-IsAssigned}
use api_bridge.Engine.Handles.View.{
  Store, view, put, plain_handle, view-Holds, Holds-view, view_lem, created-Backs,
  shared_again-Backs, destroyed-Backs,
}

pub data Operation (P : Type 0) : Type 0 where
  creates : (this : Address) (size tags : ℕ) (value : P) → Operation P
  duplicates : (this : Address) (h : Handle) (new_tags check_tags : ℕ) → Operation P
  assigns : (g h : Handle) → Operation P
  destroys : (h : Handle) → Operation P

-- A client that ends with a result.
pub data Client (P R : Type 0) : Type 0 where
  done : R → Client P R
  call : Operation P → (Handle → Client P R) → Client P R
  read : Handle → ℕ → (P → Client P R) → Client P R

module _ {P : Type 0} where
  -- The code of an operation; one that makes no handle returns the one that it changes.
  unfoldable pub perform : Operation P → M P Handle
  perform (creates this size tags value) = create_handle this size tags value
  perform (duplicates this h new_tags check_tags) = duplicate_handle_as this h new_tags check_tags
  perform (assigns g h) = do assign_engine_object g.p h.p; pure g
  perform (destroys h) = do destroy_obj h.p; pure h

  unfoldable pub run : {R : Type 0} → Client P R → M P R
  run (done r) = pure r
  run (call op next) = do g ← perform op; run (next g)
  run (read h tags next) = do x ← retrieve_from_handle h tags; run (next x)

  -- When the store allows an operation.
  abbrev pub Allowed : Operation P → Store P → Type 0
  Allowed (creates this size tags value) store = bit_and tags Tag.mask_reserved_bits ≡ 0
  Allowed (duplicates this h new_tags check_tags) store =
      (bit_and h.tag Tag.engine_object ≡ Tag.engine_object)
      × (bit_and check_tags Tag.mask_reserved_bits ≡ 0)
      × (bit_and h.tag check_tags ≡ check_tags)
      × ((new_tags ≡ h.tag) ⊎ (bit_and new_tags Tag.mask_reserved_bits ≡ 0))
      × (x : P) × (store h.p ≡ some (this, x))
  Allowed (assigns g h) store =
      (this : Address) × (x : P) × (y : P) × (store g.p ≡ some (this, x))
      × (store h.p ≡ some (this, y))
  Allowed (destroys h) store = (this : Address) × (x : P) × (store h.p ≡ some (this, x))

  -- A handle that is new to the store.
  abbrev pub IsNew : Store P → Handle → ℕ → ℕ → Type 0
  IsNew store g size tags =
      (store g.p ≡ none) × (g.p ≢ 0) × (g.size ≡ size) × (g.tag ≡ bit_or Tag.engine_object tags)

  -- The handle that an operation returns.
  abbrev pub Answers : Operation P → Store P → Handle → Type 0
  Answers (creates this size tags value) store g = IsNew store g size tags
  Answers (duplicates this h new_tags check_tags) store g = IsNew store g h.size new_tags
  Answers (assigns f h) store g = g ≡ f
  Answers (destroys h) store g = g ≡ h

  -- What it does to the store: a duplicate has a copy of the value, and so has the target of an
  -- assignment.
  abbrev pub effect : Operation P → Handle → Store P → Store P
  effect (creates this size tags value) g store = put g.p (some (this, value)) store
  effect (duplicates this h new_tags check_tags) g store = put g.p (store h.p) store
  effect (assigns f h) g store = put f.p (store h.p) store
  effect (destroys h) g store = put h.p none store

  -- The operation succeeds, as the store says.
  abbrev pub Performs : Operation P → World P → Type 0
  Performs op w =
      (g : Handle) × (v : World P) × (perform op w ≡ returns g v)
      × IsSound v
      × Answers op (view w) g
      × (view v ≡ effect op g (view w))

  unseen : (q : Address) (w : World P) → lookup q w.heap ≡ none → view w q ≡ none
  unseen q w e = ground (arith, e)

  weaken : (p : Address) (w v : World P) → Keeps 0 w v → Keeps p w v
  weaken p w v keeps this x g ne o = keeps this x g o.nonnull o

  creates-Performs :
      (this : Address) (size tags : ℕ) (value : P) (w : World P)
      → IsSound w
      → bit_and tags Tag.mask_reserved_bits ≡ 0
      → Performs (creates this size tags value) w
  unfolding perform
  creates-Performs this size tags value w v clear =
      let keeps = created-Keeps this value w v in
      let holds = created-Holds this size tags value w in
      (
        object_handle (suc w.next) size tags,
        created this value w,
        create_handle_lem this size tags value w clear v.started,
        created-IsSound this value w v,
        (
          unseen (suc w.next) w (lookup_above w.next (suc w.next) w.heap v.fresh (omega arith)),
          omega arith,
          refl,
          refl,
        ),
        view_lem (suc w.next) w (created this value w) v (weaken (suc w.next) w _ keeps)
            (created-Backs this value w) (some (this, value))
            (Holds-view this value (object_handle (suc w.next) size tags) _ holds),
      )

  duplicates-Performs :
      (this : Address) (h : Handle) (new_tags check_tags : ℕ) (w : World P)
      → IsSound w
      → Allowed (duplicates this h new_tags check_tags) (view w)
      → Performs (duplicates this h new_tags check_tags) w
  unfolding perform
  duplicates-Performs this h new_tags check_tags w v (is_object, clear, has, tags, x, seen) =
      let o = view-Holds this x h w v is_object seen in
      let after = shared_again o.object o.state w in
      (
        object_handle w.next h.size new_tags,
        after,
        duplicate_handle_as_lem this h new_tags check_tags o.object o.state w clear is_object has
            tags o.nonnull o.at o.own (block_nonnull this x h w v o) o.block,
        shared_again-IsSound h.p o.object o.state w v o.at o.block,
        (
          unseen w.next w (lookup_above w.next w.next w.heap v.fresh (omega arith)),
          v.started,
          refl,
          refl,
        ),
        view_lem w.next w after v
            (weaken w.next w after (shared_again-Keeps o.object o.state w v o.block))
            (shared_again-Backs o.object o.state w) (view w h.p)
            (Holds-view this x (object_handle w.next h.size new_tags) after
                (shared_again-Holds this x h new_tags w v o)
              ∙ sym seen),
      )

  assigns-Performs :
      (g h : Handle) (w : World P)
      → IsSound w
      → Allowed (assigns g h) (view w)
      → Performs (assigns g h) w
  unfolding perform assign_engine_object
  assigns-Performs g h w v (this, x, y, to, from) = elim (Bool-cases (g.p == h.p)) [
    | inl same ↦ (g, w, ground (arith, same), v, refl, fun_ext λ q. ground (arith, same))
    | inr other ↦
        let (u, a) =
          assign_engine_object-IsAssigned this x y (plain_handle g.p) (plain_handle h.p) w v
            (view-Holds this x (plain_handle g.p) w v refl to)
            (view-Holds this y (plain_handle h.p) w v refl from) (ground (arith, other)) in
        (
          g,
          u,
          ground (arith, a.runs),
          a.sound,
          refl,
          view_lem g.p w u v a.keeps a.old_object (view w h.p)
              (Holds-view this y (plain_handle g.p) u a.holds ∙ sym from),
        )
  ]

  destroys-Performs :
      (h : Handle) (w : World P)
      → IsSound w
      → Allowed (destroys h) (view w)
      → Performs (destroys h) w
  unfolding perform
  destroys-Performs h w v (this, x, seen) =
      let o = view-Holds this x (plain_handle h.p) w v refl seen in
      let after = destroyed h.p o.object o.state w in
      let runs =
        destroy_obj_lem h.p o.object o.state w o.nonnull o.at
          (block_nonnull this x (plain_handle h.p) w v o) o.block in
      (
        h,
        after,
        ground (arith, runs),
        destroyed-IsSound h.p o.object o.state w v o.at o.block,
        refl,
        view_lem h.p w after v (destroyed-Keeps h.p o.object o.state w v o.at o.block)
            (destroyed-Backs h.p o.object o.state w v o.at o.block) none
            (unseen h.p after (destroyed_self h.p o.object o.state w v o.at o.block)),
      )

  perform_lem : (op : Operation P) (w : World P) → IsSound w → Allowed op (view w) → Performs op w
  perform_lem (creates this size tags value) w v allowed =
      creates-Performs this size tags value w v allowed
  perform_lem (duplicates this h new_tags check_tags) w v allowed =
      duplicates-Performs this h new_tags check_tags w v allowed
  perform_lem (assigns g h) w v allowed = assigns-Performs g h w v allowed
  perform_lem (destroys h) w v allowed = destroys-Performs h w v allowed

  -- When the store allows every step of a client, whatever handles the operations return.
  abbrev pub Permits : {R : Type 0} → Client P R → Store P → Type 0
  Permits (done r) store = Unit {0}
  Permits (call op next) store =
      Allowed op store × ((g : Handle) → Answers op store g → Permits (next g) (effect op g store))
  Permits (read h tags next) store =
      (bit_and h.tag Tag.engine_object ≡ Tag.engine_object)
      × (bit_and tags Tag.mask_reserved_bits ≡ 0)
      × (bit_and h.tag tags ≡ tags)
      × (this : Address) × (x : P) × (store h.p ≡ some (this, x))
      × Permits (next x) store

  -- The client can end on the store with this result and this store.
  abbrev pub Ends : {R : Type 0} → Client P R → Store P → R → Store P → Type 0
  Ends (done r) store result last = (r ≡ result) × (store ≡ last)
  Ends (call op next) store result last =
      (g : Handle) × Answers op store g × Ends (next g) (effect op g store) result last
  Ends (read h tags next) store result last =
      (this : Address) × (x : P) × (store h.p ≡ some (this, x)) × Ends (next x) store result last

  -- In a sound memory, a client each of whose steps the store of values allows, whatever handles it
  -- gets, ends: it returns, the memory is sound, and its result and the values of all handles
  -- are those of a run on the store, where a duplicate and the target of an assignment have a value
  -- of their own.
  pub run-Ends :
      {R : Type 0} (c : Client P R) (w : World P)
      → IsSound w
      → Permits c (view w)
      → (r : R) × (v : World P) × (run c w ≡ returns r v) × IsSound v × Ends c (view w) r (view v)
  unfolding run
  run-Ends (done r) w sound permits = (r, w, refl, sound, (refl, refl))
  run-Ends (call op next) w sound permits =
      let (g, u, does, sound_u, answers, seen) = perform_lem op w sound permits.0 in
      let (r, v, runs, sound_v, ends) =
        run-Ends (next g) u sound_u (subst (Permits (next g)) (sym seen) (permits.1 g answers)) in
      (
        r,
        v,
        ground (arith, does, runs),
        sound_v,
        (g, answers, subst (λ store. Ends (next g) store r (view v)) seen ends),
      )
  run-Ends (read h tags next) w sound (is_object, clear, has, this, x, seen, permits) =
      let (r, v, runs, sound_v, ends) = run-Ends (next x) w sound permits in
      let does =
        retrieve_from_handle-Holds this x h tags w (view-Holds this x h w sound is_object seen)
          clear has in
      (r, v, ground (arith, does, runs), sound_v, (this, x, seen, ends))
