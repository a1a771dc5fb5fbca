-- ===== src/Engine/Handles/Invariant.antt =====
-- Every operation on handles keeps the invariant of reference-counted handles, whatever its
-- arguments, whether it returns or throws.
use api_bridge.Base.{
  suc, ℕ, ◌≡◌, sym, subst, arith, none, some, inl, inr, Option-cases, Bool-cases, ◌==◌,
}
use api_bridge.Types.{Address, Handle}
use api_bridge.Memory.{
  World, Object, EngineObject, Shared, returns, undefined, M, bind?, lookup, engine_object, shared,
  as_engine_object,
}
use api_bridge.Engine.Handles.{
  create_engine_obj, create_handle, retrieve_from_handle, check_handle_tags, copy_engine_object,
  duplicate_handle_internal, duplicate_handle_as, destroy_obj,
}
use api_bridge.Engine.Handles.Results.{created, shared_again, destroy_obj_lem}
use api_bridge.Engine.Handles.Sound.{IsSound, created-IsSound}
use api_bridge.Engine.Handles.Duplicate.{shared_again-IsSound}
use api_bridge.Engine.Handles.Destroy.{destroyed-IsSound}
use api_bridge.Engine.Handles.Safe.{
  IsSafe, EndsSound, found_kind, bind-IsSafe, then-IsSafe, pure-IsSafe, throw_if-IsSafe,
  deref-IsSafe, safe_rules,
}

module _ {P : Type 0} where
  is_object :
      (u : Object P) (obj : EngineObject) → as_engine_object u ≡ some obj → u ≡ engine_object obj
  is_object (engine_object x) obj e = cc
  is_object u obj e = cc

  -- Code that reads the object of a handle first: it is undefined, or there is a block.
  object_first :
      {A : Type 0} (m : M P A) (p : Address)
      → ((w : World P) → bind? (lookup p w.heap) as_engine_object ≡ none → m w ≡ undefined)
      → ((w : World P) (obj : EngineObject) (s : Shared P)
          → IsSound w
          → lookup p w.heap ≡ some (engine_object obj)
          → lookup obj.p_obj w.heap ≡ some (shared s)
          → EndsSound (m w))
      → IsSafe m
  object_first m p stops next = record {
    ends = λ w v. elim (Option-cases (bind? (lookup p w.heap) as_engine_object)) [
      | inl missing ↦ subst EndsSound (sym (stops w missing)) tt
      | inr (obj, found) ↦
          let (u, there, is) = found_kind as_engine_object (lookup p w.heap) obj found in
          let at : lookup p w.heap ≡ some (engine_object obj) =
            ground (arith, there, is_object u obj is) in
          let (s, block) = v.alive p obj at in next w obj s v at block
    ];
  }

  create_engine_obj-IsSafe : (this : Address) (value : P) → IsSafe (create_engine_obj this value)
  unfolding create_engine_obj
  create_engine_obj-IsSafe this value = record {
    ends = λ w v.
        let e : create_engine_obj this value w ≡ returns (suc w.next) (created this value w) =
          ground (arith, v.started) in
        subst EndsSound (sym e) (created-IsSound this value w v);
  }

  pub create_handle-IsSafe :
      (this : Address) (size tags : ℕ) (value : P) → IsSafe (create_handle this size tags value)
  unfolding create_handle
  create_handle-IsSafe this size tags value =
      then-IsSafe (throw_if-IsSafe _ _)
        (bind-IsSafe (create_engine_obj-IsSafe this value) λ p_retval. pure-IsSafe)

  pub retrieve_from_handle-IsSafe :
      (h : Handle) (tags : ℕ) → IsSafe {P = P} (retrieve_from_handle h tags)
  unfolding retrieve_from_handle
  retrieve_from_handle-IsSafe h tags = search safe_rules depth 14

  check_handle_tags-IsSafe : (h : Handle) (tags : ℕ) → IsSafe {P = P} (check_handle_tags h tags)
  unfolding check_handle_tags
  check_handle_tags-IsSafe h tags = record { ends = λ w sound. ground arith }

  copy_engine_object-IsSafe : (src : Address) → IsSafe {P = P} (copy_engine_object src)
  unfolding copy_engine_object
  copy_engine_object-IsSafe src =
      object_first (copy_engine_object src) src (λ w missing. ground (arith, missing))
        λ w obj s v at block.
          let e : copy_engine_object src w ≡ returns w.next (shared_again obj s w) =
            ground (arith, at, block, v.null_free) in
          subst EndsSound (sym e) (shared_again-IsSound src obj s w v at block)

  duplicate_handle_internal-IsSafe :
      (this : Address) (h : Handle) (new_tag : ℕ)
      → IsSafe {P = P} (duplicate_handle_internal this h new_tag)
  unfolding duplicate_handle_internal
  duplicate_handle_internal-IsSafe this h new_tag = then-IsSafe (throw_if-IsSafe _ _) (
      bind-IsSafe (deref-IsSafe _ _) λ obj.
        then-IsSafe (throw_if-IsSafe _ _)
          (bind-IsSafe (copy_engine_object-IsSafe h.p) λ p_retval. pure-IsSafe))

  pub duplicate_handle_as-IsSafe :
      (this : Address) (h : Handle) (new_tags check_tags : ℕ)
      → IsSafe {P = P} (duplicate_handle_as this h new_tags check_tags)
  unfolding duplicate_handle_as
  duplicate_handle_as-IsSafe this h new_tags check_tags =
      then-IsSafe (check_handle_tags-IsSafe h check_tags)
        (then-IsSafe (throw_if-IsSafe _ _) (duplicate_handle_internal-IsSafe this h new_tags))

  pub destroy_obj-IsSafe : (p : Address) → IsSafe {P = P} (destroy_obj p)
  unfolding destroy_obj
  destroy_obj-IsSafe p = record {
    ends = λ w v. elim (Bool-cases (p == 0)) [
      | inl null ↦
          let e : destroy_obj p w ≡ returns tt w = ground (arith, null) in subst EndsSound (sym e) v
      | inr some_object ↦
          (object_first (destroy_obj p) p (λ u missing. ground (arith, missing))
              λ u obj s sound at block.
                let e =
                  destroy_obj_lem p obj s u (ground arith) at
                    (ground (arith, sound.null_free, block)) block in
                subst EndsSound (sym e) (destroyed-IsSound p obj s u sound at block)).ends
            w v
    ];
  }
