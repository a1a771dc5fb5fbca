-- ===== src/Engine/Handles/Owners.antt =====
-- The owners of a block: how many objects in memory hold it.
use api_bridge.Base.{ℕ, ◌+◌, ◌≤◌, ◌≡◌, some, [], ◌∷◌, arith, ◌==◌, if◌then◌else◌}
use api_bridge.Types.{Address}
use api_bridge.Memory.{Object, Heap, lookup, insert, erase, engine_object}

module _ {P : Type 0} where
  -- 1 for an object that holds the block.
  abbrev pub owns : Address → Object P → ℕ
  owns a (engine_object obj) = if obj.p_obj == a then 1 else 0
  owns a _ = 0

  abbrev pub owners : Address → Heap (Object P) → ℕ
  owners a [] = 0
  owners a ((k, o) ∷ h) = owns a o + owners a h

  pub owners-insert :
      (a k : Address) (v u : Object P) (h : Heap (Object P))
      → lookup k h ≡ some u
      → owners a (insert k v h) + owns a u ≡ owners a h + owns a v
  owners-insert a k v u [] e = cc
  owners-insert a k v u ((j, o) ∷ h) e = ground (arith, owners-insert a k v u h)

  pub owners-erase :
      (a k : Address) (u : Object P) (h : Heap (Object P))
      → lookup k h ≡ some u
      → owners a (erase k h) + owns a u ≡ owners a h
  owners-erase a k u [] e = cc
  owners-erase a k u ((j, o) ∷ h) e = ground (arith, owners-erase a k u h)

  pub owns-le-owners :
      (a k : Address) (u : Object P) (h : Heap (Object P))
      → lookup k h ≡ some u
      → owns a u ≤ owners a h
  owns-le-owners a k u h e = omega (arith, owners-erase a k u h e)
