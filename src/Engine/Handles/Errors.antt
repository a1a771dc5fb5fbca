-- ===== src/Engine/Handles/Errors.antt =====
-- The errors of reading and duplicating a handle.
use api_bridge.Base.{ℕ, ◌≡◌, ◌≢◌, some, arith, ◌⊎◌, bit_and}
use api_bridge.Types.{Address, Handle, ecode_critical_error}
use api_bridge.Types.Tag
use api_bridge.Memory.{EngineObject, Fails, World, lookup, engine_object}
use api_bridge.Engine.Handles.{retrieve_from_handle, duplicate_handle_as}

-- A handle that cannot be read with these tags: it is not an object's, lacks a tag or is null.
abbrev pub Unreadable : Handle → ℕ → Type 0
Unreadable h tags =
    (bit_and h.tag Tag.engine_object ≢ Tag.engine_object)
    ⊎ ((bit_and h.tag tags ≢ tags) ⊎ (h.p ≡ 0))

module _ {P : Type 0} where
  -- Reading a handle that is not an object's, that lacks one of the tags asked for, or that is null,
  -- throws a critical error, whatever the tags asked for, and changes nothing.
  pub retrieve_from_handle-throws :
      (h : Handle) (tags : ℕ) (w : World P)
      → Unreadable h tags
      → Fails ecode_critical_error w (retrieve_from_handle h tags w)
  unfolding retrieve_from_handle
  retrieve_from_handle-throws h tags w bad = ground arith

  -- Duplicating another engine's handle is refused with a critical error, whatever the tags, and
  -- changes nothing.
  pub duplicate_handle_as-throws :
      (this : Address) (h : Handle) (new_tags check_tags : ℕ) (obj : EngineObject) (w : World P)
      → h.p ≢ 0
      → lookup h.p w.heap ≡ some (engine_object obj)
      → obj.engine ≢ this
      → Fails ecode_critical_error w (duplicate_handle_as this h new_tags check_tags w)
  unfolding duplicate_handle_as
  duplicate_handle_as-throws this h new_tags check_tags obj w ne at other = ground arith

  -- So is duplicating a handle that is not an object's, or that lacks a tag asked for.
  pub duplicate_handle_as-lacks :
      (this : Address) (h : Handle) (new_tags check_tags : ℕ) (w : World P)
      → (bit_and h.tag Tag.engine_object ≢ Tag.engine_object)
        ⊎ (bit_and h.tag check_tags ≢ check_tags)
      → Fails ecode_critical_error w (duplicate_handle_as this h new_tags check_tags w)
  unfolding duplicate_handle_as
  duplicate_handle_as-lacks this h new_tags check_tags w bad = ground arith
