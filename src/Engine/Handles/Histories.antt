-- ===== src/Engine/Handles/Histories.antt =====
-- Histories of handles: the sequences in which a backend creates, duplicates and destroys them, in
-- any order.
use api_bridge.Base.{ℕ, ◌≡◌, ◌≢◌, sym, subst, ◌∙◌, ◌⊎◌, List, [], ◌∷◌, bit_and, arith}
use api_bridge.Types.{Address, Handle}
use api_bridge.Types.Tag
use api_bridge.Memory.{World, returns}
use api_bridge.Engine.Handles.{create_handle, duplicate_handle_as, destroy_obj}
use api_bridge.Engine.Handles.Sound.{IsSound}
use api_bridge.Engine.Handles.Sharing.{
  Holds, Keeps, create_handle-Holds, duplicate_handle_as-Holds, destroy_obj-Holds,
}

-- One operation, from one memory to the next, with the address of the handle that it destroys, 0 if
-- it destroys none. An operation on a handle wants it to be alive.
pub data Step {P : Type 0} (w v : World P) (gone : Address) : Type 0 where
  creates :
      (this : Address) (size tags : ℕ) (value : P) (h : Handle)
      → bit_and tags Tag.mask_reserved_bits ≡ 0
      → create_handle this size tags value w ≡ returns h v
      → gone ≡ 0
      → Step w v gone
  duplicates :
      (this : Address) (value : P) (h g : Handle) (new_tags check_tags : ℕ)
      → Holds this value h w
      → bit_and check_tags Tag.mask_reserved_bits ≡ 0
      → bit_and h.tag check_tags ≡ check_tags
      → (new_tags ≡ h.tag) ⊎ (bit_and new_tags Tag.mask_reserved_bits ≡ 0)
      → duplicate_handle_as this h new_tags check_tags w ≡ returns g v
      → gone ≡ 0
      → Step w v gone
  destroys :
      (this : Address) (value : P) (h : Handle)
      → Holds this value h w
      → destroy_obj h.p w ≡ returns tt v
      → gone ≡ h.p
      → Step w v gone

-- None of the addresses is this one.
abbrev pub Spared : Address → List Address → Type 0
Spared p [] = Unit {0}
Spared p (q ∷ qs) = (p ≢ q) × Spared p qs

module _ {P : Type 0} where
  -- A sequence of operations, with the addresses that they destroy.
  abbrev pub Steps : List Address → World P → World P → Type 0
  Steps [] w v = w ≡ v
  Steps (p ∷ ps) w v = (u : World P) × Step w u p × Steps ps u v

  kept :
      (w v u : World P) (p q : Address)
      → p ≡ q
      → u ≡ v
      → IsSound u
      → Keeps q w u
      → IsSound v × Keeps p w v
  kept w v u p q e same sound keeps = (
    subst IsSound same sound,
    λ this x g ne o. subst (Holds this x g) same (keeps this x g (λ f. ne (f ∙ sym e)) o),
  )

  step_lem : (w v : World P) (p : Address) → IsSound w → Step w v p → IsSound v × Keeps p w v
  step_lem w v p sound (creates this size tags value h clear runs none) =
      let (h1, u, does, tag, sound1, holds, keeps) =
        create_handle-Holds this size tags value w sound clear in
      kept w v u p 0 none (ground (arith, does, runs)) sound1 keeps
  step_lem w v p sound (duplicates this value h g new_tags check_tags o clear has tags runs none) =
      let (g1, u, does, tag, new, sound1, holds, keeps) =
        duplicate_handle_as-Holds this value h new_tags check_tags w sound o clear has tags in
      kept w v u p 0 none (ground (arith, does, runs)) sound1 keeps
  step_lem w v p sound (destroys this value h o runs gone) =
      let (u, does, absent, sound1, keeps) = destroy_obj-Holds this value h w sound o in
      kept w v u p h.p gone (ground (arith, does, runs)) sound1 keeps

  -- After any sequence of creations, duplications and destructions of handles that starts in a sound
  -- memory, the memory is sound: every block counts its owners, of which it has one at least, and no
  -- owner dangles.
  pub Steps-IsSound : (ps : List Address) (w v : World P) → IsSound w → Steps ps w v → IsSound v
  Steps-IsSound [] w v sound same = subst IsSound same sound
  Steps-IsSound (p ∷ ps) w v sound (u, step, steps) =
      Steps-IsSound ps u v (step_lem w u p sound step).0 steps

  -- After any sequence of creations, duplications and destructions that starts in a sound memory, a
  -- handle that held a value, and that the sequence did not destroy, still holds it.
  pub Steps-Holds :
      (ps : List Address) (this : Address) (value : P) (h : Handle) (w v : World P)
      → IsSound w
      → Steps ps w v
      → Spared h.p ps
      → Holds this value h w
      → Holds this value h v
  Steps-Holds [] this value h w v sound same spared o = subst (Holds this value h) same o
  Steps-Holds (p ∷ ps) this value h w v sound (u, step, steps) spared o =
      let (sound1, keeps) = step_lem w u p sound step in
      Steps-Holds ps this value h u v sound1 steps spared.1 (keeps this value h spared.0 o)
