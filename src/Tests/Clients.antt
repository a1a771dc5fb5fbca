-- ===== src/Tests/Clients.antt =====
-- A client that shares a value between two handles, destroys the first, and reads the second.
use api_bridge.Base.{ℕ, ◌≡◌, refl, sym, subst, arith, inr, bit_and, bit_or}
use api_bridge.Types.{Handle}
use api_bridge.Types.Tag
use api_bridge.Memory.{World, returns}
use api_bridge.Engine.Handles.Sound.{IsSound}
use api_bridge.Engine.Handles.View.{Store, view}
use api_bridge.Engine.Handles.Clients.{
  Client, creates, duplicates, destroys, done, call, read, run, Permits, Ends, run-Ends,
}
use api_bridge.Tests.Start.{start, start-IsSound}

abbrev reading : Handle → Client ℕ ℕ
reading g = read g 0x100 λ x. done x

abbrev dropping : Handle → Handle → Client ℕ ℕ
dropping h g = call (destroys h) λ f. reading g

abbrev sharing : Client ℕ ℕ
sharing = call (creates 1 8 0x10 7) λ h. call (duplicates 1 h 0x100 0x10) λ g. dropping h g

-- A handle with the tag of objects and another has both.
has_tag :
    (h : Handle) (tags mask : ℕ)
    → h.tag ≡ bit_or Tag.engine_object tags
    → bit_and (bit_or Tag.engine_object tags) mask ≡ mask
    → bit_and h.tag mask ≡ mask
has_tag h tags mask e has = subst (λ t. bit_and t mask ≡ mask) (sym e) has

sharing-Permits : (store : Store ℕ) → Permits sharing store
sharing-Permits store = (
  refl,
  λ h new. (
    (
      has_tag h 0x10 Tag.engine_object new.3 refl,
      refl,
      has_tag h 0x10 0x10 new.3 refl,
      inr refl,
      7,
      ground arith,
    ),
    λ g other. (
      (1, 7, ground (arith, other)),
      λ f same. (
        has_tag g 0x100 Tag.engine_object other.3 refl,
        refl,
        has_tag g 0x100 0x100 other.3 refl,
        1,
        7,
        ground (arith, other),
        tt,
      ),
    ),
  ),
)

run-Ends_example :
    (r : ℕ) × (v : World ℕ) × (run sharing start ≡ returns r v)
    × IsSound v
    × Ends sharing (view start) r (view v)
run-Ends_example = run-Ends sharing start start-IsSound (sharing-Permits (view start))
