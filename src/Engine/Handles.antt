-- ===== src/Engine/Handles.antt =====
-- Reference-counted handles: `EngineObject` of hebench/api_bridge/cpp/engine_object.hpp, and the
-- member functions of `BaseEngine` that create, duplicate, read and destroy handles, of
-- hebench/api_bridge/cpp/engine.hpp and hebench/api_bridge/src/engine.cpp. A shared pointer is the
-- address of a block that counts its owners; the last owner to go destroys the block.
use api_bridge.Base.{ℕ, ◌+◌, ◌-◌, not, ◌&&◌, ◌++◌, ◌==◌, bit_and, bit_or}
pub mod Results
pub mod Owners
pub mod Sound
pub mod Duplicate
pub mod Destroy
pub mod Sharing
pub mod Errors
pub mod Histories
pub mod Caller
pub mod Drain
pub mod Safe
pub mod Invariant
pub mod Writes
pub mod Release
pub mod Assign
pub mod View
pub mod Clients
use Prim.Native.String.{String}
use api_bridge.Base.Int.{pos}
use api_bridge.Text.{Text, codes, to_string}
use api_bridge.Text.Message.{generate_message}
use api_bridge.Types.{Address, null, ecode_critical_error, Handle}
use api_bridge.Types.Tag
use api_bridge.Memory.{
  branch, Exception, standard, invalid_argument, runtime_error, M, ◌>>=◌, ◌>>◌, pure, throw_if,
  when, deref, assign, allocate, free, as_engine_object, as_shared, engine_object, shared,
}
use api_bridge.Engine.{class_error, engine_error}

-- Where `engine.hpp` throws.
abbrev pub template_error : String → ℕ → Text → Exception
template_error function line message =
    class_error "hebench/api_bridge/cpp/engine.hpp" "BaseEngine" function line message
      ecode_critical_error

-- The text of an exception of `engine_object.hpp`.
abbrev pub object_message : String → ℕ → String → Text
object_message function line message =
    generate_message (codes message) (codes function) (codes "EngineObject")
      (codes "hebench/api_bridge/cpp/engine_object.hpp") (pos line)

module _ {P : Type 0} where
  -- A copy of a shared pointer.
  unfoldable pub acquire : Address → M P (Unit {0})
  acquire p_obj = do
    s ← deref as_shared p_obj
    assign as_shared p_obj (shared (record s { use_count = s.use_count + 1 }))

  -- The end of a shared pointer. The deleter is `destroyObj`.
  unfoldable pub release : Address → M P (Unit {0})
  release p_obj = do
    s ← deref as_shared p_obj
    branch (s.use_count == 1) (free as_shared p_obj)
        (assign as_shared p_obj (shared (record s { use_count = s.use_count - 1 })))

  -- `new EngineObject(engine, p_obj)`
  unfoldable pub new_engine_object : Address → Address → M P Address
  unfolding acquire
  new_engine_object this p_obj = do
    throw_if (p_obj == null) (
        standard invalid_argument (object_message "EngineObject" 118 "Invalid null pointer: p_obj"))
    acquire p_obj
    allocate (engine_object (record { engine = this; p_obj = p_obj }))

  -- The copy constructor, of the object at an address.
  unfoldable pub copy_engine_object : Address → M P Address
  unfolding new_engine_object
  copy_engine_object src = do
    from ← deref as_engine_object src
    new_engine_object from.engine from.p_obj

  -- `EngineObject::operator=`, of the object at one address from that at another.
  unfoldable pub assign_engine_object : Address → Address → M P (Unit {0})
  unfolding acquire release
  assign_engine_object this src = do
    when (not (this == src)) do
      to ← deref as_engine_object this
      from ← deref as_engine_object src
      throw_if (not (to.engine == from.engine))
          (standard runtime_error (object_message "operator=" 130 "Engine mismatch."))
      throw_if (from.p_obj == null) (
          standard invalid_argument
            (object_message "operator=" 132 "Invalid null pointer: src.m_p_obj"))
      acquire from.p_obj
      assign as_engine_object this (engine_object (record to { p_obj = from.p_obj }))
      when (not (to.p_obj == null)) (release to.p_obj)

  -- `createRAII` and the `EngineObject` on it; the local shared pointer ends with the function.
  unfoldable pub create_engine_obj : Address → P → M P Address
  unfolding new_engine_object release
  create_engine_obj this value = do
    raii ← allocate (shared (record { value = value; use_count = 1 }))
    p_retval ← new_engine_object this raii
    release raii
    pure p_retval

  unfoldable pub create_handle : Address → ℕ → ℕ → P → M P Handle
  unfolding create_engine_obj
  create_handle this size extra_tags value = do
    throw_if (not (bit_and extra_tags Tag.mask_reserved_bits == 0)) (
        template_error "createHandle" 383
          (codes "Invalid 'extra_tags' detected. Most significant 8 bits of tags are reserved."))
    p_retval ← create_engine_obj this value
    pure (record { p = p_retval; size = size; tag = bit_or Tag.engine_object extra_tags })

  -- The reference that it returns is read at once by every caller, so this is its value.
  unfoldable pub retrieve_from_handle : Handle → ℕ → M P P
  retrieve_from_handle h extra_tags = do
    throw_if (not (bit_and extra_tags Tag.mask_reserved_bits == 0)) (
        template_error "retrieveFromHandle" 400
          (codes "Invalid 'extra_tags' detected. Most significant 8 bits of tags are reserved."))
    throw_if (not (bit_and h.tag Tag.engine_object == Tag.engine_object)) (
        template_error "retrieveFromHandle" 403
          (codes "Invalid tag detected. Expected EngineObject::tag."))
    throw_if (not (bit_and h.tag extra_tags == extra_tags)) (
        template_error "retrieveFromHandle" 406
          (codes "Invalid tag detected. Expected " ++ (to_string extra_tags ++ codes ".")))
    throw_if (h.p == null) (template_error "retrieveFromHandle" 410 (codes "Invalid null handle."))
    obj ← deref as_engine_object h.p
    s ← deref as_shared obj.p_obj
    pure s.value

  unfoldable pub check_handle_tags : Handle → ℕ → M P (Unit {0})
  check_handle_tags h check_tags = do
    throw_if (not (bit_and check_tags Tag.mask_reserved_bits == 0)) (
        engine_error "checkHandleTags" 220
          (codes "Invalid `check_tags` detected. Most significant 8 bits of tags are reserved.")
          ecode_critical_error)
    throw_if (not (bit_and h.tag Tag.engine_object == Tag.engine_object)) (
        engine_error "checkHandleTags" 223
          (codes "Invalid tag detected. Expected EngineObject::tag.") ecode_critical_error)
    throw_if (not (bit_and h.tag check_tags == check_tags)) (
        engine_error "checkHandleTags" 226
          (codes "Invalid tag detected. Expected " ++ (to_string check_tags ++ codes "."))
          ecode_critical_error)

  -- `new` does not return null.
  unfoldable pub duplicate_handle_internal : Address → Handle → ℕ → M P Handle
  unfolding copy_engine_object
  duplicate_handle_internal this h new_tag = do
    throw_if (h.p == null) (
        engine_error "duplicateHandleInternal" 249 (codes "Invalid null handle.")
          ecode_critical_error)
    obj ← deref as_engine_object h.p
    throw_if (not (this == obj.engine)) (
        engine_error "duplicateHandleInternal" 256
          (codes "Invalid handle. Handle was not created by invoked engine.") ecode_critical_error)
    p_retval ← copy_engine_object h.p
    pure (record { p = p_retval; size = h.size; tag = bit_or Tag.engine_object new_tag })

  -- The overload with new tags.
  unfoldable pub duplicate_handle_as : Address → Handle → ℕ → ℕ → M P Handle
  unfolding check_handle_tags duplicate_handle_internal
  duplicate_handle_as this h new_tags check_tags = do
    check_handle_tags h check_tags
    throw_if (not (new_tags == h.tag) && not (bit_and new_tags Tag.mask_reserved_bits == 0)) (
        engine_error "duplicateHandle" 234
          (codes "Invalid `new_tags` detected. Most significant 8 bits of tags are reserved.")
          ecode_critical_error)
    duplicate_handle_internal this h new_tags

  -- The overload that keeps the tags.
  unfoldable pub duplicate_handle : Address → Handle → ℕ → M P Handle
  unfolding check_handle_tags duplicate_handle_internal
  duplicate_handle this h check_tags = do
    check_handle_tags h check_tags
    duplicate_handle_internal this h h.tag

  -- `destroyObj<EngineObject>`: the object goes, and its shared pointer with it.
  unfoldable pub destroy_obj : Address → M P (Unit {0})
  unfolding release
  destroy_obj p = do
    when (not (p == null)) do
      obj ← deref as_engine_object p
      free as_engine_object p
      when (not (obj.p_obj == null)) (release obj.p_obj)
