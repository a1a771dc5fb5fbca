-- ===== src/Engine/Listed.antt =====
-- The descriptions that an engine of hebench/api_bridge/src/engine.cpp lists, and the handles that
-- subscription gives out for them.
use api_bridge.Base.{
  ℕ, zero, suc, ◌+◌, ◌≡◌, ◌≢◌, refl, arith, some, List, [], ◌∷◌, map, length, get_elem?, bit_and,
}
use api_bridge.Types.{Address}
use api_bridge.Types.Tag
use api_bridge.Memory.{Object, Heap, Description, lookup, insert, description, lookup-insert}
use api_bridge.Backend.{Sizes}
use api_bridge.Engine.{description_handle}
use api_bridge.Engine.Subscription.{Tagged, handles_from}

abbrev pub class_tags : List Description → List ℕ
class_tags = map (λ d. d.class_tag)

module _ {P : Type 0} where
  -- The addresses hold these descriptions, with the tag of descriptions.
  abbrev pub Listed : Heap (Object P) → List Address → List Description → Type 0
  Listed h [] [] = Unit {0}
  Listed h [] (d ∷ ds) = ⊥
  Listed h (p ∷ ps) [] = ⊥
  Listed h (p ∷ ps) (d ∷ ds) =
      ((p ≢ 0)
        × (lookup p h ≡ some (description d))
        × (bit_and d.class_tag Tag.benchmark_description ≢ 0))
      × Listed h ps ds

  pub Listed-Tagged :
      (h : Heap (Object P)) (ps : List Address) (ds : List Description)
      → Listed h ps ds
      → Tagged h ps (class_tags ds)
  Listed-Tagged h [] [] l = tt
  Listed-Tagged h [] (d ∷ ds) l = absurd l
  Listed-Tagged h (p ∷ ps) [] l = absurd l
  Listed-Tagged h (p ∷ ps) (d ∷ ds) (here, l) = ((d, here.1, refl), Listed-Tagged h ps ds l)

  pub Listed-length :
      (h : Heap (Object P)) (ps : List Address) (ds : List Description)
      → Listed h ps ds
      → length ps ≡ length ds
  Listed-length h [] [] l = refl
  Listed-length h [] (d ∷ ds) l = absurd l
  Listed-length h (p ∷ ps) [] l = absurd l
  Listed-length h (p ∷ ps) (d ∷ ds) (here, l) = omega (arith, Listed-length h ps ds l)

  -- A write to an object that is no description.
  pub Listed-insert :
      (h : Heap (Object P)) (ps : List Address) (ds : List Description) (k : Address)
      (u o : Object P)
      → lookup k h ≡ some u
      → ((d : Description) → u ≢ description d)
      → Listed h ps ds
      → Listed (insert k o h) ps ds
  Listed-insert h [] [] k u o at other l = tt
  Listed-insert h [] (d ∷ ds) k u o at other l = absurd l
  Listed-insert h (p ∷ ps) [] k u o at other l = absurd l
  Listed-insert h (p ∷ ps) (d ∷ ds) k u o at other ((ne, there, tagged), l) = (
    (ne, ground (arith, lookup-insert k p o h, at, there, other d), tagged),
    Listed-insert h ps ds k u o at other l,
  )

  pub Listed-get_elem? :
      (h : Heap (Object P)) (ps : List Address) (ds : List Description) (i : ℕ) (d : Description)
      → Listed h ps ds
      → get_elem? ds i ≡ some d
      → (p : Address) × (get_elem? ps i ≡ some p)
        × (p ≢ 0)
        × (lookup p h ≡ some (description d))
        × (bit_and d.class_tag Tag.benchmark_description ≢ 0)
  Listed-get_elem? h [] [] i d l e = cc
  Listed-get_elem? h [] (x ∷ ds) i d l e = absurd l
  Listed-get_elem? h (p ∷ ps) [] i d l e = absurd l
  Listed-get_elem? h (p ∷ ps) (x ∷ ds) zero d ((ne, there, tagged), l) e =
      (p, refl, ne, ground (arith, there), ground (arith, tagged))
  Listed-get_elem? h (p ∷ ps) (x ∷ ds) (suc i) d (here, l) e = Listed-get_elem? h ps ds i d l e

pub get_elem?-handles_from :
    (sizes : Sizes) (start : ℕ) (ds : List Description) (i : ℕ) (d : Description)
    → get_elem? ds i ≡ some d
    → get_elem? (handles_from sizes start (class_tags ds)) i
      ≡ some (description_handle sizes (start + i) d.class_tag)
get_elem?-handles_from sizes start [] i d e = cc
get_elem?-handles_from sizes start (x ∷ ds) zero d e = ground (arith, e)
get_elem?-handles_from sizes start (x ∷ ds) (suc i) d e =
    ground (arith, get_elem?-handles_from sizes (start + 1) ds i d e)
