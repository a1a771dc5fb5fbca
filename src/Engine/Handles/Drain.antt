-- ===== src/Engine/Handles/Drain.antt =====
-- The end of all handles: what is left in memory once a client has destroyed each of them.
use api_bridge.Base.{◌≡◌, ◌≢◌, refl, sym, some, arith, ◌⊎◌, inl, inr, List, [], ◌∷◌, ◌∙◌}
use api_bridge.Types.{Address}
use api_bridge.Memory.{
  EngineObject, Shared, World, returns, M, ◌>>◌, pure, lookup, engine_object, shared,
}
use api_bridge.Engine.Handles.{destroy_obj}
use api_bridge.Engine.Handles.Results.{destroyed, destroy_obj_lem}
use api_bridge.Engine.Handles.Sound.{IsSound, unowned}
use api_bridge.Engine.Handles.Destroy.{destroyed-IsSound, destroyed-object, old_object}
use api_bridge.Engine.Handles.Histories.{Spared}

abbrev pub OneOf : Address → List Address → Type 0
OneOf q [] = ⊥
OneOf q (p ∷ ps) = (q ≡ p) ⊎ OneOf q ps

abbrev pub Distinct : List Address → Type 0
Distinct [] = Unit {0}
Distinct (p ∷ ps) = Spared p ps × Distinct ps

Spared-ne : (p q : Address) (ps : List Address) → Spared p ps → OneOf q ps → q ≢ p
Spared-ne p q [] spared one same = absurd one
Spared-ne p q (r ∷ ps) spared (inl e) same = spared.0 (sym same ∙ e)
Spared-ne p q (r ∷ ps) spared (inr e) same = Spared-ne p q ps spared.1 e same

module _ {P : Type 0} where
  -- A client destroys the objects at these addresses, in this order.
  abbrev pub destroy_all : List Address → M P (Unit {0})
  destroy_all [] = pure tt
  destroy_all (p ∷ ps) = do destroy_obj p; destroy_all ps

  -- The addresses, each once, of all the objects that hold a block.
  pub record AreAll (ps : List Address) (w : World P) : Type 0 where
    pub distinct : Distinct ps
    pub alive :
        (p : Address)
        → OneOf p ps
        → (obj : EngineObject) × (lookup p w.heap ≡ some (engine_object obj))
    pub all :
        (p : Address) (obj : EngineObject) → lookup p w.heap ≡ some (engine_object obj) → OneOf p ps

  module _ (p : Address) (obj : EngineObject) (s : Shared P) (w : World P) (v : IsSound w)
      (at : lookup p w.heap ≡ some (engine_object obj))
      (block : lookup obj.p_obj w.heap ≡ some (shared s)) where
    rest-AreAll : (ps : List Address) → AreAll (p ∷ ps) w → AreAll ps (destroyed p obj s w)
    rest-AreAll ps a = record {
      distinct = a.distinct.1;
      alive = λ q one.
          let (o, there) = a.alive q (inr one) in
          (o, destroyed-object p obj s w v at block q o (Spared-ne p q ps a.distinct.0 one) there);
      all = λ q o e.
          let (ne, old) = old_object p obj s w v at block q o e in
          elim (a.all q o old) [ inl same ↦ absurd (ne same) | inr one ↦ one ];
    }

  -- No block is left where there is no object that holds one.
  no_block :
      (w : World P)
      → IsSound w
      → AreAll [] w
      → (a : Address) (s : Shared P) → lookup a w.heap ≢ some (shared s)
  no_block w v none a s e =
      v.owned a s e (
        v.counted a s e
        ∙ unowned w.next a w.heap v.fresh (λ q obj there same. none.all q obj there))

  -- In a sound memory, destroying all the objects that hold a block, each once and in any order,
  -- succeeds, and leaves no object and no block behind: nothing leaks.
  pub destroy_all_drains :
      (ps : List Address) (w : World P)
      → IsSound w
      → AreAll ps w
      → (v : World P) × (destroy_all ps w ≡ returns tt v)
        × IsSound v
        × ((q : Address) (obj : EngineObject) → lookup q v.heap ≢ some (engine_object obj))
        × ((a : Address) (s : Shared P) → lookup a v.heap ≢ some (shared s))
  destroy_all_drains [] w v none = (w, refl, v, λ q obj e. none.all q obj e, no_block w v none)
  destroy_all_drains (p ∷ ps) w v a =
      let (obj, at) = a.alive p (inl refl) in
      let (s, block) = v.alive p obj at in
      let (u, runs, sound, objects, blocks) =
        destroy_all_drains ps (destroyed p obj s w) (destroyed-IsSound p obj s w v at block)
          (rest-AreAll p obj s w v at block ps a) in
      let first =
        destroy_obj_lem p obj s w (ground (arith, v.null_free, at)) at
          (ground (arith, v.null_free, block)) block in
      (u, ground (arith, first, runs), sound, objects, blocks)
