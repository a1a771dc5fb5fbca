-- ===== src/Api/Destroy.antt =====
-- `destroyHandle` of hebench/api_bridge/src/main.cpp, by the kind of handle.
use api_bridge.Base.{◌≡◌, ◌≢◌, arith, ◌⊎◌, inl, inr, none, bit_and}
use api_bridge.Types.{Address, ecode_success, Handle}
use api_bridge.Types.Tag
use api_bridge.Memory.{World, returns, lookup}
use api_bridge.Backend.{Backend}
use api_bridge.Engine.Handles.Sound.{IsSound}
use api_bridge.Engine.Handles.Sharing.{Holds, Keeps, destroy_obj-Holds}
use api_bridge.Api.{check_handle_bits}
use api_bridge.Api.Engines.{destroy_handle}
use api_bridge.Api.Guards.{benchmark_tags}

module _ {P : Type 0} (b : Backend P) where
  -- Destroying a null handle, or the handle of a benchmark description, succeeds and does nothing.
  pub destroy_handle_noop :
      (h : Handle) (w : World P)
      → (h.p ≡ 0) ⊎ (h.tag ≡ Tag.benchmark_description)
      → destroy_handle b h w ≡ returns ecode_success w
  unfolding destroy_handle check_handle_bits
  destroy_handle_noop h w (inl e) = ground arith
  destroy_handle_noop h w (inr e) = ground arith

  -- Destroying, through the API, an object's handle that holds a value, without the bits of a
  -- benchmark, succeeds in a sound memory: the object is gone, the memory is sound again, and every
  -- other handle keeps its value, those that share it included.
  pub destroy_handle-Holds :
      (this : Address) (value : P) (h : Handle) (w : World P)
      → IsSound w
      → Holds this value h w
      → bit_and h.tag benchmark_tags ≢ benchmark_tags
      → (v : World P) × (destroy_handle b h w ≡ returns ecode_success v)
        × (lookup h.p v.heap ≡ none)
        × IsSound v
        × Keeps h.p w v
  unfolding destroy_handle check_handle_bits
  destroy_handle-Holds this value h w sound o no_benchmark =
      let (v, destroys, gone, kept, keeps) = destroy_obj-Holds this value h w sound o in
      (v, ground (arith, o.nonnull, o.tagged, o.at, destroys), gone, kept, keeps)
