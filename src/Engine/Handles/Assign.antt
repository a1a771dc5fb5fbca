-- ===== src/Engine/Handles/Assign.antt =====
-- `EngineObject::operator=` of hebench/api_bridge/cpp/engine_object.hpp: it copies the new shared
-- pointer and then ends the old one.
use api_bridge.Base.{
  ◌+◌, ◌≡◌, ◌≢◌, refl, sym, ◌∙◌, some, arith, ◌==◌, if◌then◌else◌, inl, inr, Bool-cases,
}
use api_bridge.Types.{Address, Handle}
use api_bridge.Memory.{
  EngineObject, Shared, World, Object, Heap, Fresh, returns, lookup, insert, engine_object, shared,
  lookup-insert, lookup_lt, insert-Fresh,
}
use api_bridge.Engine.Handles.{release, assign_engine_object}
use api_bridge.Engine.Handles.Owners.{owns, owners, owners-insert}
use api_bridge.Engine.Handles.Sound.{IsSound}
use api_bridge.Engine.Handles.Sharing.{Holds, Keeps}
use api_bridge.Engine.Handles.Release.{IsHeld, released, released-Holds}

module _ {P : Type 0} where
  -- After the copy: `to` is alive at `this`, `from` at `src`, with their blocks.
  module _ (this src : Address) (to from : EngineObject) (t s : Shared P) (w : World P)
      (v : IsSound w) (at : lookup this w.heap ≡ some (engine_object to))
      (at_src : lookup src w.heap ≡ some (engine_object from))
      (block : lookup to.p_obj w.heap ≡ some (shared t))
      (block_src : lookup from.p_obj w.heap ≡ some (shared s)) where
    abbrev more : Object P
    more = shared (record s { use_count = s.use_count + 1 })

    abbrev new : EngineObject
    new = record to { p_obj = from.p_obj }

    abbrev counted_heap : Heap (Object P)
    counted_heap = insert from.p_obj more w.heap

    abbrev copied : World P
    copied = record w { heap = insert this (engine_object new) counted_heap }

    abbrev held : Shared P
    held = if to.p_obj == from.p_obj then record s { use_count = s.use_count + 1 } else t

    still : lookup this counted_heap ≡ some (engine_object to)
    still = ground (arith, lookup-insert from.p_obj this more w.heap)

    reads :
        (a : Address)
        → lookup a copied.heap ≡ (
            if a == this
            then some (engine_object new)
            else if a == from.p_obj
            then some more
            else lookup a w.heap)
    reads a = ground (
      arith,
      still,
      block_src,
      lookup-insert from.p_obj a more w.heap,
      lookup-insert this a (engine_object new) counted_heap,
    )

    owned_after :
        (a : Address)
        → owners a copied.heap + owns {P = P} a (engine_object to)
          ≡ owners a w.heap + owns {P = P} a (engine_object new)
    owned_after a = omega (
      arith,
      owners-insert a from.p_obj more (shared s) w.heap block_src,
      owners-insert a this (engine_object new) (engine_object to) counted_heap still,
    )

    copied-Fresh : Fresh w.next copied.heap
    copied-Fresh =
        insert-Fresh w.next this (engine_object new) counted_heap
          (insert-Fresh w.next from.p_obj more w.heap v.fresh
            (lookup_lt w.next from.p_obj (shared s) w.heap v.fresh block_src))
          (lookup_lt w.next this (engine_object to) w.heap v.fresh at)

    copied_counted :
        (a : Address) (u : Shared P)
        → a ≢ to.p_obj
        → lookup a copied.heap ≡ some (shared u)
        → (u.use_count ≡ owners a copied.heap) × (u.use_count ≢ 0)
    copied_counted a u ne e = (
      ground (arith, reads a, owned_after a, v.counted a u, v.counted from.p_obj s block_src),
      ground (arith, reads a, v.owned a u),
    )

    copied_alive :
        (q : Address) (obj : EngineObject)
        → lookup q copied.heap ≡ some (engine_object obj)
        → (u : Shared P) × (lookup obj.p_obj copied.heap ≡ some (shared u))
    copied_alive q obj e = elim (Bool-cases (obj.p_obj == from.p_obj)) [
      | inl same ↦
          (record s { use_count = s.use_count + 1 }, ground (arith, reads obj.p_obj, at, block_src))
      | inr other ↦
          let old : lookup q w.heap ≡ some (engine_object obj) = ground (arith, reads q) in
          let (u, there) = v.alive q obj old in (u, ground (arith, reads obj.p_obj, there, at))
    ]

    copied-IsHeld : IsHeld to.p_obj held copied
    copied-IsHeld = record {
      fresh = copied-Fresh;
      null_free = ground (arith, reads 0, v.null_free, at, block_src);
      started = v.started;
      block = ground (arith, reads to.p_obj, at, block);
      count = ground (
        arith,
        owned_after to.p_obj,
        v.counted from.p_obj s block_src,
        v.counted to.p_obj t block,
      );
      counted = copied_counted;
      alive = copied_alive;
    }

    assigned :
        this ≢ src
        → to.engine ≡ from.engine
        → assign_engine_object this src w ≡ release to.p_obj copied
    unfolding assign_engine_object
    assigned ne same = ground (arith, at, at_src, block, block_src, still, v.null_free)

    copied_value :
        (obj : EngineObject) (u : Shared P)
        → lookup obj.p_obj w.heap ≡ some (shared u)
        → (r : Shared P) × (lookup obj.p_obj copied.heap ≡ some (shared r)) × (r.value ≡ u.value)
    copied_value obj u there = elim (Bool-cases (obj.p_obj == from.p_obj)) [
      | inl same ↦ (
        record s { use_count = s.use_count + 1 },
        ground (arith, reads obj.p_obj, at, block_src),
        ground (arith, block_src, there),
      )
      | inr other ↦ (u, ground (arith, reads obj.p_obj, at, there), refl)
    ]

    copied-Keeps : Keeps this w copied
    copied-Keeps that x g ne o =
        let (r, found, same) = copied_value o.object o.state o.block in
        record {
          nonnull = o.nonnull;
          tagged = o.tagged;
          object = o.object;
          at = ground (arith, reads g.p, block_src, o.at);
          own = o.own;
          state = r;
          block = found;
          same = same ∙ o.same;
        }

    copied-Holds :
        (engine_at : Address) (x y : P) (g : Handle)
        → g.p ≡ this
        → Holds engine_at x g w
        → to.engine ≡ engine_at
        → s.value ≡ y
        → Holds engine_at y g copied
    copied-Holds engine_at x y g here o own same = record {
      nonnull = o.nonnull;
      tagged = o.tagged;
      object = new;
      at = ground (arith, reads g.p);
      own = own;
      state = record s { use_count = s.use_count + 1 };
      block = ground (arith, reads from.p_obj, at, block_src);
      same = same;
    }

  -- What an assignment leaves: the objects that are there were there before.
  pub record IsAssigned (this : Address) (y : P) (g h : Handle) (w v : World P) : Type 0 where
    pub runs : assign_engine_object g.p h.p w ≡ returns tt v
    pub sound : IsSound v
    pub holds : Holds this y g v
    pub keeps : Keeps g.p w v
    pub old_object :
        (q : Address) (obj : EngineObject)
        → q ≢ g.p
        → lookup q v.heap ≡ some (engine_object obj)
        → lookup q w.heap ≡ some (engine_object obj)

  pub assign_engine_object-IsAssigned :
      (this : Address) (x y : P) (g h : Handle) (w : World P)
      → IsSound w
      → Holds this x g w
      → Holds this y h w
      → g.p ≢ h.p
      → (v : World P) × IsAssigned this y g h w v
  assign_engine_object-IsAssigned this x y g h w sound to from ne =
      let held_copy =
        copied-IsHeld g.p h.p to.object from.object to.state from.state w sound to.at from.at
          to.block from.block in
      let (u, r) = released to.object.p_obj _ _ held_copy in
      let assigns =
        assigned g.p h.p to.object from.object to.state from.state w sound to.at from.at to.block
          from.block ne (to.own ∙ sym from.own) in
      let holds =
        copied-Holds g.p h.p to.object from.object to.state from.state w sound to.at from.at
          to.block from.block this x y g refl to to.own from.same in
      let keeps =
        copied-Keeps g.p h.p to.object from.object to.state from.state w sound to.at from.at
          to.block from.block in
      let reads_copy =
        reads g.p h.p to.object from.object to.state from.state w sound to.at from.at to.block
          from.block in
      (
        u,
        record {
          runs = assigns ∙ r.runs;
          sound = r.sound;
          holds = released-Holds to.object.p_obj _ _ held_copy u this y g r holds;
          keeps = λ that z k apart o.
              released-Holds to.object.p_obj _ _ held_copy u that z k r (keeps that z k apart o);
          old_object = λ q obj apart e. ground (arith, r.old_object q obj e, reads_copy q);
        },
      )

  -- In a sound memory, assigning to a handle's object that of another handle of the same engine
  -- succeeds: the first handle then holds the value of the second; the memory is sound again, and
  -- every other handle, the second included, keeps its value.
  pub assign_engine_object-Holds :
      (this : Address) (x y : P) (g h : Handle) (w : World P)
      → IsSound w
      → Holds this x g w
      → Holds this y h w
      → g.p ≢ h.p
      → (v : World P) × (assign_engine_object g.p h.p w ≡ returns tt v)
        × IsSound v
        × Holds this y g v
        × Keeps g.p w v
  assign_engine_object-Holds this x y g h w sound to from ne =
      let (v, a) = assign_engine_object-IsAssigned this x y g h w sound to from ne in
      (v, a.runs, a.sound, a.holds, a.keeps)
