-- ===== src/Memory/Cells.antt =====
-- A heap: the objects that are alive, each at its address.
use api_bridge.Base.{
  ℕ, suc, ◌≡◌, refl, ◌≢◌, ◌<◌, ◌≤◌, Option, none, some, List, [], ◌∷◌, arith, ◌==◌, if◌then◌else◌,
}

abbrev pub Heap : Type 0 → Type 0
Heap V = List (ℕ × V)

module _ {V : Type 0} where
  abbrev pub lookup : ℕ → Heap V → Option V
  lookup k [] = none
  lookup k ((j, v) ∷ h) = if k == j then some v else lookup k h

  -- A write to an address that is there.
  abbrev pub insert : ℕ → V → Heap V → Heap V
  insert k v [] = (k, v) ∷ []
  insert k v (e ∷ h) = if k == e.0 then (k, v) ∷ h else e ∷ insert k v h

  abbrev pub erase : ℕ → Heap V → Heap V
  erase k [] = []
  erase k (e ∷ h) = if k == e.0 then h else e ∷ erase k h

  -- Every address is below the bound and listed once.
  abbrev pub Fresh : ℕ → Heap V → Type 0
  Fresh n [] = Unit {0}
  Fresh n ((k, v) ∷ h) = (k < n) × (lookup k h ≡ none) × Fresh n h

module _ {V : Type 0} where
  pub lookup-insert :
      (k j : ℕ) (v : V) (h : Heap V)
      → lookup j (insert k v h) ≡ (if j == k then some v else lookup j h)
  lookup-insert k j v [] = refl
  lookup-insert k j v (e ∷ h) = ground (arith, lookup-insert k j v h)

  pub lookup-insert_self : (k : ℕ) (v : V) (h : Heap V) → lookup k (insert k v h) ≡ some v
  lookup-insert_self k v h = ground (arith, lookup-insert k k v h)

  pub lookup-insert_ne :
      (k j : ℕ) (v : V) (h : Heap V) → j ≢ k → lookup j (insert k v h) ≡ lookup j h
  lookup-insert_ne k j v h ne = ground (arith, lookup-insert k j v h)

  pub lookup-erase_ne : (k j : ℕ) (h : Heap V) → j ≢ k → lookup j (erase k h) ≡ lookup j h
  lookup-erase_ne k j [] ne = refl
  lookup-erase_ne k j (e ∷ h) ne = ground (arith, lookup-erase_ne k j h ne)

  pub lookup-erase_self : (n k : ℕ) (h : Heap V) → Fresh n h → lookup k (erase k h) ≡ none
  lookup-erase_self n k [] f = refl
  lookup-erase_self n k (e ∷ h) f = ground (arith, lookup-erase_self n k h f.2)

  pub lookup_above : (n k : ℕ) (h : Heap V) → Fresh n h → n ≤ k → lookup k h ≡ none
  lookup_above n k [] f le = refl
  lookup_above n k (e ∷ h) f le = ground (arith, lookup_above n k h f.2 le)

  pub lookup_lt : (n k : ℕ) (v : V) (h : Heap V) → Fresh n h → lookup k h ≡ some v → k < n
  lookup_lt n k v [] f e = cc
  lookup_lt n k v (x ∷ h) f e = ground (arith, lookup_lt n k v h f.2)

  pub Fresh-mono : (n : ℕ) (h : Heap V) → Fresh n h → Fresh (suc n) h
  Fresh-mono n [] f = tt
  Fresh-mono n (e ∷ h) f = (omega arith, f.1, Fresh-mono n h f.2)

  pub insert-Fresh : (n k : ℕ) (v : V) (h : Heap V) → Fresh n h → k < n → Fresh n (insert k v h)
  insert-Fresh n k v [] f lt = (lt, refl, tt)
  insert-Fresh n k v (e ∷ h) f lt =
      ground (arith, insert-Fresh n k v h f.2 lt, lookup-insert k e.0 v h)

  pub erase-Fresh : (n k : ℕ) (h : Heap V) → Fresh n h → Fresh n (erase k h)
  erase-Fresh n k [] f = tt
  erase-Fresh n k (e ∷ h) f = ground (arith, erase-Fresh n k h f.2, lookup-erase_ne k e.0 h)

  pub insert-insert : (k : ℕ) (u v : V) (h : Heap V) → insert k v (insert k u h) ≡ insert k v h
  insert-insert k u v [] = ground arith
  insert-insert k u v (e ∷ h) = ground (arith, insert-insert k u v h)

  pub insert_same : (k : ℕ) (v : V) (h : Heap V) → lookup k h ≡ some v → insert k v h ≡ h
  insert_same k v [] e = cc
  insert_same k v (x ∷ h) e = ground (arith, insert_same k v h)
