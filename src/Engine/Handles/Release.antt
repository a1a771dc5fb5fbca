-- ===== src/Engine/Handles/Release.antt =====
-- A memory in which one block has an owner more than the objects that hold it, as it is between
-- the copy of a shared pointer of hebench/api_bridge/cpp/engine_object.hpp and its end: that end
-- makes the memory sound.
use api_bridge.Base.{◌+◌, ◌-◌, ◌≡◌, ◌≢◌, refl, ◌∙◌, none, some, arith, ◌==◌, inl, inr, Bool-cases}
use api_bridge.Types.{Address, Handle}
use api_bridge.Memory.{
  EngineObject, Shared, World, Object, Fresh, returns, lookup, insert, erase, engine_object, shared,
  lookup-insert, lookup-erase_ne, lookup-erase_self, lookup_lt, insert-Fresh, erase-Fresh,
}
use api_bridge.Engine.Handles.{release}
use api_bridge.Engine.Handles.Owners.{owners, owners-insert, owners-erase, owns-le-owners}
use api_bridge.Engine.Handles.Sound.{IsSound}
use api_bridge.Engine.Handles.Sharing.{Holds}

module _ {P : Type 0} where
  -- A memory that is sound but for one owner of a block, which is no object.
  pub record IsHeld (b : Address) (t : Shared P) (w : World P) : Type 0 where
    pub fresh : Fresh w.next w.heap
    pub null_free : lookup 0 w.heap ≡ none
    pub started : w.next ≢ 0
    pub block : lookup b w.heap ≡ some (shared t)
    pub count : t.use_count ≡ owners b w.heap + 1
    pub counted :
        (a : Address) (s : Shared P)
        → a ≢ b
        → lookup a w.heap ≡ some (shared s)
        → (s.use_count ≡ owners a w.heap) × (s.use_count ≢ 0)
    pub alive :
        (q : Address) (obj : EngineObject)
        → lookup q w.heap ≡ some (engine_object obj)
        → (s : Shared P) × (lookup obj.p_obj w.heap ≡ some (shared s))

  module _ (b : Address) (t : Shared P) (w : World P) (v : IsHeld b t w) where
    abbrev last_gone : World P
    last_gone = record w { heap = erase b w.heap }

    abbrev fewer : Object P
    fewer = shared (record t { use_count = t.use_count - 1 })

    abbrev one_gone : World P
    one_gone = record w { heap = insert b fewer w.heap }

    gone : lookup b last_gone.heap ≡ none
    gone = lookup-erase_self w.next b w.heap v.fresh

    stays :
        (a : Address) (o : Object P) → lookup a last_gone.heap ≡ some o → lookup a w.heap ≡ some o
    stays a o e = ground (arith, gone, lookup-erase_ne b a w.heap)

    apart : (a : Address) (o : Object P) → lookup a last_gone.heap ≡ some o → a ≢ b
    apart a o e same = ground (arith, gone)

    unowned_last :
        t.use_count ≡ 1
        → (q : Address) (obj : EngineObject) → lookup q w.heap ≡ some (engine_object obj)
        → obj.p_obj ≢ b
    unowned_last last q obj e same =
        ground (arith, v.count, owns-le-owners b q (engine_object obj) w.heap e)

    last_gone-IsSound : t.use_count ≡ 1 → IsSound last_gone
    last_gone-IsSound last = record {
      fresh = erase-Fresh w.next b w.heap v.fresh;
      null_free = ground (arith, v.null_free, v.block, lookup-erase_ne b 0 w.heap);
      started = v.started;
      counted = λ a s e. omega (
        arith,
        (v.counted a s (apart a (shared s) e) (stays a (shared s) e)).0,
        owners-erase a b (shared t) w.heap v.block,
      );
      owned = λ a s e. (v.counted a s (apart a (shared s) e) (stays a (shared s) e)).1;
      alive = λ q obj e.
          let old = stays q (engine_object obj) e in
          let (s, there) = v.alive q obj old in
          (
            s,
            ground (arith, unowned_last last q obj old, lookup-erase_ne b obj.p_obj w.heap, there),
          );
    }

    one_gone_alive :
        (q : Address) (obj : EngineObject)
        → lookup q one_gone.heap ≡ some (engine_object obj)
        → (s : Shared P) × (lookup obj.p_obj one_gone.heap ≡ some (shared s))
    one_gone_alive q obj e =
        let old : lookup q w.heap ≡ some (engine_object obj) =
          ground (arith, lookup-insert b q fewer w.heap) in
        let (s, there) = v.alive q obj old in
        elim (Bool-cases (obj.p_obj == b)) [
          | inl same ↦ (
            record t { use_count = t.use_count - 1 },
            ground (arith, v.block, lookup-insert b obj.p_obj fewer w.heap),
          )
          | inr other ↦ (s, ground (arith, lookup-insert b obj.p_obj fewer w.heap, there))
        ]

    one_gone_counted :
        (a : Address) (s : Shared P)
        → t.use_count ≢ 1
        → lookup a one_gone.heap ≡ some (shared s)
        → (s.use_count ≡ owners a one_gone.heap) × (s.use_count ≢ 0)
    one_gone_counted a s more e =
        let same = owners-insert a b fewer (shared t) w.heap v.block in
        elim (Bool-cases (a == b)) [
          | inl here ↦ (
            ground (arith, same, v.count, v.block, lookup-insert b a fewer w.heap),
            ground (arith, v.count, v.block, lookup-insert b a fewer w.heap),
          )
          | inr other ↦
              let old : lookup a w.heap ≡ some (shared s) =
                ground (arith, lookup-insert b a fewer w.heap) in
              let (counts, some_owner) = v.counted a s (ground (arith, other)) old in
              (omega (arith, same, counts), some_owner)
        ]

    one_gone-IsSound : t.use_count ≢ 1 → IsSound one_gone
    one_gone-IsSound more = record {
      fresh =
          insert-Fresh w.next b fewer w.heap v.fresh
            (lookup_lt w.next b (shared t) w.heap v.fresh v.block);
      null_free = ground (arith, v.null_free, v.block, lookup-insert b 0 fewer w.heap);
      started = v.started;
      counted = λ a s e. (one_gone_counted a s more e).0;
      owned = λ a s e. (one_gone_counted a s more e).1;
      alive = one_gone_alive;
    }

    -- The end of the owner that is no object: other addresses stay as they were, and every object
    -- keeps its value.
    pub record IsReleased (u : World P) : Type 0 where
      pub runs : release b w ≡ returns tt u
      pub sound : IsSound u
      pub elsewhere : (a : Address) → a ≢ b → lookup a u.heap ≡ lookup a w.heap
      pub value :
          (q : Address) (obj : EngineObject) (s : Shared P)
          → lookup q w.heap ≡ some (engine_object obj)
          → lookup obj.p_obj w.heap ≡ some (shared s)
          → (r : Shared P) × (lookup obj.p_obj u.heap ≡ some (shared r)) × (r.value ≡ s.value)
      pub old_object :
          (q : Address) (obj : EngineObject)
          → lookup q u.heap ≡ some (engine_object obj)
          → lookup q w.heap ≡ some (engine_object obj)

    last_gone-IsReleased : t.use_count ≡ 1 → IsReleased last_gone
    unfolding release
    last_gone-IsReleased last = record {
      runs = ground (arith, v.block, last);
      sound = last_gone-IsSound last;
      elsewhere = λ a ne. lookup-erase_ne b a w.heap ne;
      value = λ q obj s e there. (
        s,
        ground (arith, unowned_last last q obj e, lookup-erase_ne b obj.p_obj w.heap, there),
        refl,
      );
      old_object = λ q obj e. stays q (engine_object obj) e;
    }

    one_gone_value :
        (q : Address) (obj : EngineObject) (s : Shared P)
        → lookup q w.heap ≡ some (engine_object obj)
        → lookup obj.p_obj w.heap ≡ some (shared s)
        → (r : Shared P) × (lookup obj.p_obj one_gone.heap ≡ some (shared r)) × (r.value ≡ s.value)
    one_gone_value q obj s e there = elim (Bool-cases (obj.p_obj == b)) [
      | inl same ↦ (
        record t { use_count = t.use_count - 1 },
        ground (arith, v.block, lookup-insert b obj.p_obj fewer w.heap),
        ground (arith, v.block, there),
      )
      | inr other ↦ (s, ground (arith, lookup-insert b obj.p_obj fewer w.heap, there), refl)
    ]

    one_gone-IsReleased : t.use_count ≢ 1 → IsReleased one_gone
    unfolding release
    one_gone-IsReleased more = record {
      runs = ground (arith, v.block, more);
      sound = one_gone-IsSound more;
      elsewhere = λ a ne. ground (arith, lookup-insert b a fewer w.heap);
      value = one_gone_value;
      old_object = λ q obj e. ground (arith, lookup-insert b q fewer w.heap);
    }

    pub released : (u : World P) × IsReleased u
    released = elim (Bool-cases (t.use_count == 1)) [
      | inl last ↦ (last_gone, last_gone-IsReleased (ground (arith, last)))
      | inr more ↦ (one_gone, one_gone-IsReleased (ground (arith, more)))
    ]

    pub released-Holds :
        (u : World P) (this : Address) (x : P) (g : Handle)
        → IsReleased u
        → Holds this x g w
        → Holds this x g u
    released-Holds u this x g r o =
        let (s, found, same) = r.value g.p o.object o.state o.at o.block in
        record {
          nonnull = o.nonnull;
          tagged = o.tagged;
          object = o.object;
          at = ground (arith, r.elsewhere g.p, v.block, o.at);
          own = o.own;
          state = s;
          block = found;
          same = same ∙ o.same;
        }
