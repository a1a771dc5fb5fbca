-- ===== src/Engine/Handles/Sharing.antt =====
-- What handles promise to the code that uses them: a handle gives its value as long as it is not
-- destroyed, whatever happens to the handles that share the value.
use api_bridge.Base.{
  ℕ, suc, ◌+◌, ◌≡◌, ◌≢◌, refl, none, some, arith, ◌==◌, bit_and, bit_or, ◌⊎◌, inl, inr, Bool-cases,
  ◌∙◌,
}
use api_bridge.Base.Bits.{bit_and-bit_or_left}
use api_bridge.Types.{Address, Handle}
use api_bridge.Types.Tag
use api_bridge.Memory.{
  EngineObject, Shared, World, returns, Object, lookup, engine_object, shared, lookup-insert,
  lookup_lt, lookup_above,
}
use api_bridge.Engine.Handles.{
  create_handle, retrieve_from_handle, duplicate_handle_as, destroy_obj,
}
use api_bridge.Engine.Handles.Results.{
  object_handle, created, shared_again, destroyed, create_handle_lem, retrieve_from_handle_lem,
  duplicate_handle_as_lem, destroy_obj_lem,
}
use api_bridge.Engine.Handles.Sound.{IsSound, created-IsSound}
use api_bridge.Engine.Handles.Duplicate.{shared_again-IsSound}
use api_bridge.Engine.Handles.Destroy.{
  destroyed-IsSound, destroyed-object, destroyed-block, destroyed_self,
}

module _ {P : Type 0} where
  -- A handle that an engine gave out for a value, and that is not destroyed.
  pub record Holds (this : Address) (value : P) (h : Handle) (w : World P) : Type 0 where
    pub nonnull : h.p ≢ 0
    pub tagged : bit_and h.tag Tag.engine_object ≡ Tag.engine_object
    pub object : EngineObject
    pub at : lookup h.p w.heap ≡ some (engine_object object)
    pub own : object.engine ≡ this
    pub state : Shared P
    pub block : lookup object.p_obj w.heap ≡ some (shared state)
    pub same : state.value ≡ value

  -- Every handle but this one holds on to its value from one memory to another.
  abbrev pub Keeps : Address → World P → World P → Type 0
  Keeps p w v =
      (this : Address) (x : P) (g : Handle) → g.p ≢ p → Holds this x g w → Holds this x g v

  pub block_nonnull :
      (this : Address) (x : P) (h : Handle) (w : World P) (v : IsSound w) (o : Holds this x h w)
      → o.object.p_obj ≢ 0
  block_nonnull this x h w v o e = ground (arith, v.null_free, o.block)

  pub created-Keeps :
      (this : Address) (value : P) (w : World P) → IsSound w → Keeps 0 w (created this value w)
  created-Keeps this value w v that x g ne o = record {
    nonnull = ne;
    tagged = o.tagged;
    object = o.object;
    at = ground (arith, lookup_lt w.next g.p (engine_object o.object) w.heap v.fresh o.at);
    own = o.own;
    state = o.state;
    block = ground (arith, lookup_lt w.next o.object.p_obj (shared o.state) w.heap v.fresh o.block);
    same = o.same;
  }

  pub created-Holds :
      (this : Address) (size tags : ℕ) (value : P) (w : World P)
      → Holds this value (object_handle (suc w.next) size tags) (created this value w)
  created-Holds this size tags value w = record {
    nonnull = omega arith;
    tagged = bit_and-bit_or_left Tag.engine_object tags;
    object = record { engine = this; p_obj = w.next };
    at = ground arith;
    own = refl;
    state = record { value = value; use_count = 1 };
    block = ground arith;
    same = refl;
  }

  -- In a sound memory, creating a handle with tags that leave the reserved bits clear returns a
  -- handle, with the object tag and those tags, that holds the value; the memory is sound again and
  -- every other handle keeps its value.
  pub create_handle-Holds :
      (this : Address) (size tags : ℕ) (value : P) (w : World P)
      → IsSound w
      → bit_and tags Tag.mask_reserved_bits ≡ 0
      → (h : Handle) × (v : World P) × (create_handle this size tags value w ≡ returns h v)
        × (h.tag ≡ bit_or Tag.engine_object tags)
        × IsSound v
        × Holds this value h v
        × Keeps 0 w v
  create_handle-Holds this size tags value w v clear = (
    object_handle (suc w.next) size tags,
    created this value w,
    create_handle_lem this size tags value w clear v.started,
    refl,
    created-IsSound this value w v,
    created-Holds this size tags value w,
    created-Keeps this value w v,
  )

  -- Reading a handle that holds a value, with tags that it has, gives the value and changes nothing.
  pub retrieve_from_handle-Holds :
      (this : Address) (value : P) (h : Handle) (tags : ℕ) (w : World P)
      → Holds this value h w
      → bit_and tags Tag.mask_reserved_bits ≡ 0
      → bit_and h.tag tags ≡ tags
      → retrieve_from_handle h tags w ≡ returns value w
  retrieve_from_handle-Holds this value h tags w o clear has = ground (
    arith,
    o.same,
    retrieve_from_handle_lem h tags o.object o.state w clear o.tagged has o.nonnull o.at o.block,
  )

  pub shared_again-Keeps :
      (obj : EngineObject) (s : Shared P) (w : World P)
      → IsSound w
      → lookup obj.p_obj w.heap ≡ some (shared s)
      → Keeps 0 w (shared_again obj s w)
  shared_again-Keeps obj s w v block that x g ne o =
      elim (Bool-cases (o.object.p_obj == obj.p_obj)) [
        | inl same ↦ record {
          nonnull = ne;
          tagged = o.tagged;
          object = o.object;
          at = again g.p (engine_object o.object) o.at (ground (arith, o.at, block));
          own = o.own;
          state = record s { use_count = s.use_count + 1 };
          block = ground (
            arith,
            lookup_lt w.next obj.p_obj (shared s) w.heap v.fresh block,
            lookup-insert obj.p_obj o.object.p_obj
                (shared (record s { use_count = s.use_count + 1 })) w.heap,
          );
          same = ground (arith, o.same, o.block, block);
        }
        | inr other ↦ record {
          nonnull = ne;
          tagged = o.tagged;
          object = o.object;
          at = again g.p (engine_object o.object) o.at (ground (arith, o.at, block));
          own = o.own;
          state = o.state;
          block = again o.object.p_obj (shared o.state) o.block (ground arith);
          same = o.same;
        }
      ]
    where
      again :
          (a : Address) (u : Object P)
          → lookup a w.heap ≡ some u
          → a ≢ obj.p_obj
          → lookup a (shared_again obj s w).heap ≡ some u
      again a u e other = ground (
        arith,
        lookup_lt w.next a u w.heap v.fresh e,
        lookup-insert obj.p_obj a (shared (record s { use_count = s.use_count + 1 })) w.heap,
      )

  -- The new handle of a value that a handle holds.
  pub shared_again-Holds :
      (this : Address) (value : P) (h : Handle) (tags : ℕ) (w : World P)
      → IsSound w
      → (o : Holds this value h w)
      → Holds this value (object_handle w.next h.size tags) (shared_again o.object o.state w)
  shared_again-Holds this value h tags w v o = record {
    nonnull = v.started;
    tagged = bit_and-bit_or_left Tag.engine_object tags;
    object = o.object;
    at = ground arith;
    own = o.own;
    state = record (o.state) { use_count = o.state.use_count + 1 };
    block = ground (
      arith,
      lookup_lt w.next o.object.p_obj (shared o.state) w.heap v.fresh o.block,
      lookup-insert o.object.p_obj o.object.p_obj
          (shared (record (o.state) { use_count = o.state.use_count + 1 })) w.heap,
    );
    same = o.same;
  }

  -- In a sound memory, duplicating a handle through the engine that created it, with tags that it
  -- has and new tags that are its own or leave the reserved bits clear, returns a second handle,
  -- with the object tag and the new tags, that holds the same value; the memory is sound again and
  -- every handle keeps its value.
  pub duplicate_handle_as-Holds :
      (this : Address) (value : P) (h : Handle) (new_tags check_tags : ℕ) (w : World P)
      → IsSound w
      → Holds this value h w
      → bit_and check_tags Tag.mask_reserved_bits ≡ 0
      → bit_and h.tag check_tags ≡ check_tags
      → (new_tags ≡ h.tag) ⊎ (bit_and new_tags Tag.mask_reserved_bits ≡ 0)
      → (g : Handle) × (v : World P) × (duplicate_handle_as this h new_tags check_tags w
          ≡ returns g v)
        × (g.tag ≡ bit_or Tag.engine_object new_tags)
        × (lookup g.p w.heap ≡ none)
        × IsSound v
        × Holds this value g v
        × Keeps 0 w v
  duplicate_handle_as-Holds this value h new_tags check_tags w v o clear has tags = (
    object_handle w.next h.size new_tags,
    shared_again o.object o.state w,
    duplicate_handle_as_lem this h new_tags check_tags o.object o.state w clear o.tagged has tags
        o.nonnull o.at o.own (block_nonnull this value h w v o) o.block,
    refl,
    lookup_above w.next w.next w.heap v.fresh (omega arith),
    shared_again-IsSound h.p o.object o.state w v o.at o.block,
    shared_again-Holds this value h new_tags w v o,
    shared_again-Keeps o.object o.state w v o.block,
  )

  pub destroyed-Keeps :
      (p : Address) (obj : EngineObject) (s : Shared P) (w : World P)
      → IsSound w
      → lookup p w.heap ≡ some (engine_object obj)
      → lookup obj.p_obj w.heap ≡ some (shared s)
      → Keeps p w (destroyed p obj s w)
  destroyed-Keeps p obj s w v at block that x g ne o =
      let (t, there, unchanged) =
        destroyed-block p obj s w v at block g.p o.object o.state ne o.at o.block in
      record {
        nonnull = o.nonnull;
        tagged = o.tagged;
        object = o.object;
        at = destroyed-object p obj s w v at block g.p o.object ne o.at;
        own = o.own;
        state = t;
        block = there;
        same = unchanged ∙ o.same;
      }

  -- In a sound memory, destroying a handle that holds a value succeeds, and its object is gone; the
  -- memory is sound again and every other handle keeps its value, those that share it included.
  pub destroy_obj-Holds :
      (this : Address) (value : P) (h : Handle) (w : World P)
      → IsSound w
      → Holds this value h w
      → (v : World P) × (destroy_obj h.p w ≡ returns tt v)
        × (lookup h.p v.heap ≡ none)
        × IsSound v
        × Keeps h.p w v
  destroy_obj-Holds this value h w v o = (
    destroyed h.p o.object o.state w,
    destroy_obj_lem h.p o.object o.state w o.nonnull o.at (block_nonnull this value h w v o)
        o.block,
    destroyed_self h.p o.object o.state w v o.at o.block,
    destroyed-IsSound h.p o.object o.state w v o.at o.block,
    destroyed-Keeps h.p o.object o.state w v o.at o.block,
  )
