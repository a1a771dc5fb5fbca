-- ===== src/Engine/Handles/Caller.antt =====
-- What the operations on handles leave alone: every object of the caller and of the wrapper that is
-- no block and no owner of one.
use api_bridge.Base.{ℕ, suc, ◌+◌, ◌≡◌, ◌≢◌, refl, sym, some, arith, bit_and, ◌∙◌, bit_or, inr}
use api_bridge.Types.{Address, Handle}
use api_bridge.Types.Tag
use api_bridge.Memory.{
  EngineObject, Shared, World, Object, returns, engine_object, shared, lookup, insert,
  lookup-insert, lookup_lt, insert-Fresh,
}
use api_bridge.Engine.Handles.{create_handle, duplicate_handle_as}
use api_bridge.Engine.Handles.Owners.{owns, owners, owners-insert}
use api_bridge.Engine.Handles.Results.{
  created, shared_again, create_handle_lem, object_handle, duplicate_handle_as_lem,
}
use api_bridge.Engine.Handles.Sound.{IsSound, created-IsSound}
use api_bridge.Engine.Handles.Duplicate.{shared_again-IsSound}
use api_bridge.Engine.Handles.Sharing.{
  Holds, Keeps, created-Holds, created-Keeps, shared_again-Holds, shared_again-Keeps, block_nonnull,
}

module _ {P : Type 0} where
  -- No block of a shared pointer and no owner of one.
  abbrev pub IsPlain : Object P → Type 0
  IsPlain (engine_object o) = ⊥
  IsPlain (shared s) = ⊥
  IsPlain _ = Unit {0}

  -- Every plain object stays, but for the one at an address; 0 stands for none.
  abbrev pub Stays : Address → World P → World P → Type 0
  Stays p w v =
      (a : Address) (o : Object P)
      → IsPlain o
      → a ≢ p
      → lookup a w.heap ≡ some o
      → lookup a v.heap ≡ some o

  pub created-Stays :
      (this : Address) (value : P) (w : World P) → IsSound w → Stays 0 w (created this value w)
  created-Stays this value w v a o plain ne at =
      ground (arith, lookup_lt w.next a o w.heap v.fresh at)

  -- A plain object is no block.
  pub plain_block : (o : Object P) (s : Shared P) → IsPlain o → o ≢ shared s
  plain_block (shared t) s plain e = absurd plain
  plain_block (engine_object t) s plain e = absurd plain
  plain_block o s plain e = cc

  -- A plain object is no owner.
  pub plain_owner : (o : Object P) (obj : EngineObject) → IsPlain o → o ≢ engine_object obj
  plain_owner (engine_object t) obj plain e = absurd plain
  plain_owner (shared t) obj plain e = absurd plain
  plain_owner o obj plain e = cc

  pub plain_apart :
      (a b : Address) (o : Object P) (s : Shared P) (w : World P)
      → IsPlain o
      → lookup a w.heap ≡ some o
      → lookup b w.heap ≡ some (shared s)
      → a ≢ b
  plain_apart a b o s w plain at block same = plain_block o s plain (ground (arith, at, block))

  pub shared_again-Stays :
      (obj : EngineObject) (s : Shared P) (w : World P)
      → IsSound w
      → lookup obj.p_obj w.heap ≡ some (shared s)
      → Stays 0 w (shared_again obj s w)
  shared_again-Stays obj s w v block a o plain ne at = ground (
    arith,
    lookup_lt w.next a o w.heap v.fresh at,
    plain_apart a obj.p_obj o s w plain at block,
    lookup-insert obj.p_obj a (shared (record s { use_count = s.use_count + 1 })) w.heap,
  )

  -- A new handle that holds a value, with these tags, in a sound memory where all else is as it was.
  pub record IsGiven (this : Address) (tags : ℕ) (value : P) (w : World P) (g : Handle)
      (v : World P) : Type 0 where
    pub tagged : g.tag ≡ bit_or Tag.engine_object tags
    pub sound : IsSound v
    pub holds : Holds this value g v
    pub keeps : Keeps 0 w v
    pub stays : Stays 0 w v

  pub create_handle-IsGiven :
      (this : Address) (size tags : ℕ) (value : P) (w : World P)
      → IsSound w
      → bit_and tags Tag.mask_reserved_bits ≡ 0
      → (g : Handle) × (v : World P) × (create_handle this size tags value w ≡ returns g v)
        × IsGiven this tags value w g v
  create_handle-IsGiven this size tags value w v clear = (
    object_handle (suc w.next) size tags,
    created this value w,
    create_handle_lem this size tags value w clear v.started,
    record {
      tagged = refl;
      sound = created-IsSound this value w v;
      holds = created-Holds this size tags value w;
      keeps = created-Keeps this value w v;
      stays = created-Stays this value w v;
    },
  )

  pub duplicate_handle_as-IsGiven :
      (this : Address) (value : P) (h : Handle) (new_tags check_tags : ℕ) (w : World P)
      → IsSound w
      → Holds this value h w
      → bit_and check_tags Tag.mask_reserved_bits ≡ 0
      → bit_and h.tag check_tags ≡ check_tags
      → bit_and new_tags Tag.mask_reserved_bits ≡ 0
      → (g : Handle) × (v : World P) × (duplicate_handle_as this h new_tags check_tags w
          ≡ returns g v)
        × IsGiven this new_tags value w g v
  duplicate_handle_as-IsGiven this value h new_tags check_tags w v o clear has new = (
    object_handle w.next h.size new_tags,
    shared_again o.object o.state w,
    duplicate_handle_as_lem this h new_tags check_tags o.object o.state w clear o.tagged has
        (inr new) o.nonnull o.at o.own (block_nonnull this value h w v o) o.block,
    record {
      tagged = refl;
      sound = shared_again-IsSound h.p o.object o.state w v o.at o.block;
      holds = shared_again-Holds this value h new_tags w v o;
      keeps = shared_again-Keeps o.object o.state w v o.block;
      stays = shared_again-Stays o.object o.state w v o.block;
    },
  )

  pub plain_owns : (a : Address) (o : Object P) → IsPlain o → owns a o ≡ 0
  plain_owns a (engine_object o) plain = absurd plain
  plain_owns a o plain = refl

  -- A write of a plain object over another.
  abbrev pub written : Address → Object P → World P → World P
  written p o w = record w { heap = insert p o w.heap }

  module _ (p : Address) (u o : Object P) (w : World P) (at : lookup p w.heap ≡ some u)
      (was : IsPlain u) (is : IsPlain o) where
    written_block :
        (a : Address) (s : Shared P)
        → lookup a (written p o w).heap ≡ some (shared s)
        → lookup a w.heap ≡ some (shared s)
    written_block a s e = ground (arith, lookup-insert p a o w.heap, plain_block o s is)

    owners-written : (a : Address) → owners a (written p o w).heap ≡ owners a w.heap
    owners-written a =
        omega (arith, owners-insert a p o u w.heap at, plain_owns a o is, plain_owns a u was)

    written_alive :
        (q : Address) (obj : EngineObject)
        → IsSound w
        → lookup q (written p o w).heap ≡ some (engine_object obj)
        → (s : Shared P) × (lookup obj.p_obj (written p o w).heap ≡ some (shared s))
    written_alive q obj v e =
        let there : lookup q w.heap ≡ some (engine_object obj) =
          ground (arith, lookup-insert p q o w.heap, plain_owner o obj is) in
        let (s, block) = v.alive q obj there in
        (
          s,
          ground (
            arith,
            lookup-insert p obj.p_obj o w.heap,
            plain_apart p obj.p_obj u s w was at block,
          ),
        )

    pub written-IsSound : IsSound w → IsSound (written p o w)
    written-IsSound v = record {
      fresh = insert-Fresh w.next p o w.heap v.fresh (lookup_lt w.next p u w.heap v.fresh at);
      null_free = ground (arith, lookup-insert p 0 o w.heap, v.null_free);
      started = v.started;
      counted = λ a s e. v.counted a s (written_block a s e) ∙ sym (owners-written a);
      owned = λ a s e. v.owned a s (written_block a s e);
      alive = λ q obj e. written_alive q obj v e;
    }

    pub written-Keeps : Keeps 0 w (written p o w)
    written-Keeps this x g ne h = record {
      nonnull = h.nonnull;
      tagged = h.tagged;
      object = h.object;
      at = ground (arith, lookup-insert p g.p o w.heap, plain_owner u h.object was, h.at);
      own = h.own;
      state = h.state;
      block = ground (
        arith,
        lookup-insert p h.object.p_obj o w.heap,
        plain_apart p h.object.p_obj u h.state w was at h.block,
        h.block,
      );
      same = h.same;
    }

    pub written-Stays : Stays p w (written p o w)
    written-Stays a q plain ne there = ground (arith, lookup-insert p a o w.heap)
