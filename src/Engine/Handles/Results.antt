-- ===== src/Engine/Handles/Results.antt =====
-- The memory that each operation on handles leaves, where it succeeds.
use api_bridge.Base.{
  ℕ, suc, ◌+◌, ◌-◌, ◌≡◌, ◌≢◌, some, arith, ◌∷◌, ◌==◌, if◌then◌else◌, bit_and, bit_or, ◌⊎◌,
}
use api_bridge.Types.{Address, Handle}
use api_bridge.Types.Tag
use api_bridge.Memory.{
  EngineObject, Shared, World, returns, lookup, insert, erase, engine_object, shared,
  lookup-erase_ne,
}
use api_bridge.Engine.Handles.{
  create_handle, retrieve_from_handle, duplicate_handle_as, destroy_obj,
}

abbrev pub object_handle : Address → ℕ → ℕ → Handle
object_handle p size tags = record { p = p; size = size; tag = bit_or Tag.engine_object tags }

module _ {P : Type 0} where
  -- A new block with one owner, and the owner.
  abbrev pub created : Address → P → World P → World P
  created this value w = record w {
    heap =
        (suc w.next, engine_object (record { engine = this; p_obj = w.next }))
        ∷ (w.next, shared (record { value = value; use_count = 1 }))
        ∷ w.heap;
    next = suc (suc w.next);
  }

  -- One more owner of a block.
  abbrev pub shared_again : EngineObject → Shared P → World P → World P
  shared_again obj s w = record w {
    heap =
        (w.next, engine_object obj)
        ∷ insert obj.p_obj (shared (record s { use_count = s.use_count + 1 })) w.heap;
    next = suc w.next;
  }

  -- An owner less, and the block gone with the last.
  abbrev pub destroyed : Address → EngineObject → Shared P → World P → World P
  destroyed p obj s w = record w {
    heap =
        if s.use_count == 1
        then erase obj.p_obj (erase p w.heap)
        else insert obj.p_obj (shared (record s { use_count = s.use_count - 1 })) (erase p w.heap);
  }

  pub create_handle_lem :
      (this : Address) (size extra_tags : ℕ) (value : P) (w : World P)
      → bit_and extra_tags Tag.mask_reserved_bits ≡ 0
      → w.next ≢ 0
      → create_handle this size extra_tags value w
        ≡ returns (object_handle (suc w.next) size extra_tags) (created this value w)
  unfolding create_handle
  create_handle_lem this size extra_tags value w clear ne = ground arith

  pub retrieve_from_handle_lem :
      (h : Handle) (tags : ℕ) (obj : EngineObject) (s : Shared P) (w : World P)
      → bit_and tags Tag.mask_reserved_bits ≡ 0
      → bit_and h.tag Tag.engine_object ≡ Tag.engine_object
      → bit_and h.tag tags ≡ tags
      → h.p ≢ 0
      → lookup h.p w.heap ≡ some (engine_object obj)
      → lookup obj.p_obj w.heap ≡ some (shared s)
      → retrieve_from_handle h tags w ≡ returns s.value w
  unfolding retrieve_from_handle
  retrieve_from_handle_lem h tags obj s w clear is_object has ne at block = ground arith

  pub duplicate_handle_as_lem :
      (this : Address) (h : Handle) (new_tags check_tags : ℕ) (obj : EngineObject) (s : Shared P)
      (w : World P)
      → bit_and check_tags Tag.mask_reserved_bits ≡ 0
      → bit_and h.tag Tag.engine_object ≡ Tag.engine_object
      → bit_and h.tag check_tags ≡ check_tags
      → (new_tags ≡ h.tag) ⊎ (bit_and new_tags Tag.mask_reserved_bits ≡ 0)
      → h.p ≢ 0
      → lookup h.p w.heap ≡ some (engine_object obj)
      → obj.engine ≡ this
      → obj.p_obj ≢ 0
      → lookup obj.p_obj w.heap ≡ some (shared s)
      → duplicate_handle_as this h new_tags check_tags w
        ≡ returns (object_handle w.next h.size new_tags) (shared_again obj s w)
  unfolding duplicate_handle_as
  duplicate_handle_as_lem this h new_tags check_tags obj s w clear is_object has tags ne at own nz
        block =
      ground arith

  pub destroy_obj_lem :
      (p : Address) (obj : EngineObject) (s : Shared P) (w : World P)
      → p ≢ 0
      → lookup p w.heap ≡ some (engine_object obj)
      → obj.p_obj ≢ 0
      → lookup obj.p_obj w.heap ≡ some (shared s)
      → destroy_obj p w ≡ returns tt (destroyed p obj s w)
  unfolding destroy_obj
  destroy_obj_lem p obj s w ne at nz block = ground (arith, lookup-erase_ne p obj.p_obj w.heap)
