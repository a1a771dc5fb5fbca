-- ===== src/Engine/Subscription.antt =====
-- Subscription: the handles that `subscribeBenchmarks` of hebench/api_bridge/src/engine.cpp gives
-- out name the engine's descriptions.
use api_bridge.Base.{
  ℕ, suc, ◌+◌, ◌≤◌, ◌≡◌, ◌≢◌, refl, sym, subst, ◌∙◌, ap, some, List, [], ◌∷◌, length, get_elem?,
  arith, bit_and, ◌++◌, get_elem?-append_at, set-append_at, length-append, get_elem?_lt,
  append_assoc, drop,
}
use api_bridge.Types.{Address, Handle}
use api_bridge.Types.Tag
use api_bridge.Memory.{
  Engine, Description, World, returns, throws, Object, lookup, insert, handles, description, engine,
  lookup-insert, insert-insert, insert_same, Heap,
}
use api_bridge.Backend.{Sizes}
use api_bridge.Engine.{
  match_benchmark, description_handle, subscribe_loop, subscribe_benchmarks, wrong_count,
}

-- Matching a subscribed handle gives the description at its position.
pub match_benchmark-description_handle :
    (e : Engine) (sizes : Sizes) (i class_tag p_bd : ℕ)
    → get_elem? e.descriptors i ≡ some p_bd
    → bit_and class_tag Tag.benchmark_description ≢ 0
    → match_benchmark e (description_handle sizes i class_tag) ≡ p_bd
unfolding match_benchmark
match_benchmark-description_handle e sizes i class_tag p_bd at tagged =
    ground (arith, get_elem?_lt e.descriptors i p_bd at)

-- The handles of descriptions with these class tags, the first at position `i`.
abbrev pub handles_from : Sizes → ℕ → List ℕ → List Handle
handles_from sizes i [] = []
handles_from sizes i (t ∷ tags) = description_handle sizes i t ∷ handles_from sizes (i + 1) tags

module _ {P : Type 0} where
  -- The addresses hold descriptions with these class tags.
  abbrev pub Tagged : Heap (Object P) → List Address → List ℕ → Type 0
  Tagged h [] [] = Unit {0}
  Tagged h [] (t ∷ tags) = ⊥
  Tagged h (p ∷ ps) [] = ⊥
  Tagged h (p ∷ ps) (t ∷ tags) =
      ((d : Description) × (lookup p h ≡ some (description d)) × (d.class_tag ≡ t))
      × Tagged h ps tags

module _ {P : Type 0} (sizes : Sizes) (p : Address) (w : World P) (start : List Handle)
    (at : lookup p w.heap ≡ some (handles start)) where
  abbrev filled : List Handle → World P
  filled array = record w { heap = insert p (handles array) w.heap }

  -- One round at position `i`.
  round :
      (done todo : List Address) (p_bd i left t : ℕ) (before after : List Handle) (x : Handle)
      (d : Description)
      → i ≡ length done
      → i ≡ length before
      → lookup p_bd w.heap ≡ some (description d)
      → d.class_tag ≡ t
      → subscribe_loop sizes (done ++ p_bd ∷ todo) p (suc left) i (filled (before ++ x ∷ after))
        ≡ subscribe_loop sizes
            (done ++ p_bd ∷ todo)
            p
            left
            (i + 1)
            (filled (before ++ description_handle sizes i t ∷ after))
  unfolding subscribe_loop
  round done todo p_bd i left t before after x d e n found tag = ground (
    arith,
    lookup-insert p p (handles (before ++ x ∷ after)) w.heap,
    lookup-insert p p_bd (handles (before ++ x ∷ after)) w.heap,
    get_elem?-append_at done todo p_bd i e,
    get_elem?-append_at before after x i n,
    set-append_at before after x (description_handle sizes i t) i n,
    insert-insert p (handles (before ++ x ∷ after))
        (handles (before ++ description_handle sizes i t ∷ after)) w.heap,
  )

  -- The rounds that are left fill the rest of the array.
  loop_fills :
      (todo done : List Address) (tags : List ℕ) (i : ℕ) (before after : List Handle)
      → i ≡ length done
      → i ≡ length before
      → Tagged w.heap todo tags
      → length todo ≤ length after
      → subscribe_loop sizes (done ++ todo) p (length todo) i (filled (before ++ after))
        ≡ returns tt (filled (before ++ (handles_from sizes i tags ++ drop (length todo) after)))
  unfolding subscribe_loop
  loop_fills [] done [] i before after e n tagged room = refl
  loop_fills [] done (t ∷ tags) i before after e n tagged room = absurd tagged
  loop_fills (p_bd ∷ todo) done [] i before after e n tagged room = absurd tagged
  loop_fills (p_bd ∷ todo) done (t ∷ tags) i before [] e n tagged room = absurd (omega arith)
  loop_fills (p_bd ∷ todo) done (t ∷ tags) i before (x ∷ after) e n tagged room =
      let (d, found, tag) = tagged.0 in
      let h = description_handle sizes i t in
      round done todo p_bd i (length todo) t before after x d e n found tag
      ∙ subst
          (λ (ds : List Address).
            (hs : List Handle)
            → hs ≡ (before ++ h ∷ []) ++ after
            → subscribe_loop sizes ds p (length todo) (i + 1) (filled hs)
              ≡ returns tt (
                  filled (
                    before ++ (h ∷ (handles_from sizes (i + 1) tags ++ drop (length todo) after)))))
          (append_assoc done (p_bd ∷ []) todo)
          (λ hs same. rw same (
            loop_fills todo (done ++ p_bd ∷ []) tags (i + 1) (before ++ h ∷ []) after
              (omega (arith, length-append done (p_bd ∷ [])))
              (omega (arith, length-append before (h ∷ []))) tagged.1 (omega arith)
            ∙ ap (λ hs. returns tt (filled hs)) (append_assoc before (h ∷ []) _)))
          (before ++ h ∷ after) (sym (append_assoc before (h ∷ []) after))

module _ {P : Type 0} where
  -- Asked for exactly the engine's number of benchmarks, with an array that has room for them, the
  -- call fills the front of the array with the handles of the descriptions, in order and with
  -- their class tags, and changes nothing else.
  pub subscribe_benchmarks_fills :
      (sizes : Sizes) (this p : Address) (e : Engine) (tags : List ℕ) (array : List Handle)
      (w : World P)
      → lookup this w.heap ≡ some (engine e)
      → lookup p w.heap ≡ some (handles array)
      → p ≢ 0
      → Tagged w.heap e.descriptors tags
      → length e.descriptors ≤ length array
      → subscribe_benchmarks sizes this p (length e.descriptors) w
        ≡ returns tt (record w {
          heap =
              insert p
                (handles (handles_from sizes 0 tags ++ drop (length e.descriptors) array))
                w.heap;
        })
  unfolding subscribe_benchmarks
  subscribe_benchmarks_fills sizes this p e tags array w is_engine is_array ne tagged room =
      let whole =
        loop_fills sizes p w array is_array e.descriptors [] tags 0 [] array refl refl tagged
          room in
      ground (arith, insert_same p (handles array) w.heap is_array, whole)

  -- With any other number, and an array, nothing is written and the error is that of invalid
  -- arguments.
  pub subscribe_benchmarks_refuses :
      (sizes : Sizes) (this p : Address) (e : Engine) (count : ℕ) (w : World P)
      → lookup this w.heap ≡ some (engine e)
      → p ≢ 0
      → count ≢ length e.descriptors
      → subscribe_benchmarks sizes this p count w
        ≡ throws (wrong_count (length e.descriptors) count) w
  unfolding subscribe_benchmarks
  subscribe_benchmarks_refuses sizes this p e count w is_engine ne other = ground arith
