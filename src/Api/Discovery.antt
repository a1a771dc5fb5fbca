-- ===== src/Api/Discovery.antt =====
-- How a caller finds the benchmarks of an engine, by the functions of
-- hebench/api_bridge/src/main.cpp: it asks for their number, subscribes to as many, and asks for the
-- description of each.
use api_bridge.Base.{
  ℕ, ◌≤◌, ◌≡◌, ◌≢◌, subst, ◌∙◌, ap, arith, some, List, ◌++◌, length, get_elem?, drop,
}
use api_bridge.Types.{Address, Handle, BenchmarkDescriptor, ecode_success}
use api_bridge.Memory.{
  World, Object, Engine, Description, returns, lookup, insert, engine, handles, word,
  bench_descriptor, lookup-insert, lookup-insert_self,
}
use api_bridge.Backend.{Backend}
use api_bridge.Engine.{description_handle}
use api_bridge.Engine.Subscription.{handles_from, subscribe_benchmarks_fills}
use api_bridge.Engine.Descriptions.{describe_benchmark-description_handle}
use api_bridge.Api.{check_handle_bits}
use api_bridge.Api.Engines
use api_bridge.Api.Texts.{IsEngine}
use api_bridge.Engine.Listed.{
  class_tags, Listed, Listed-Tagged, Listed-length, Listed-insert, Listed-get_elem?,
  get_elem?-handles_from,
}

module _ {P : Type 0} (b : Backend P) (h_engine : Handle) (e : Engine) (w : World P)
    (ds : List Description) (is_engine : IsEngine h_engine e w)
    (listed : Listed w.heap e.descriptors ds) where
  count_runs :
      (p n : ℕ)
      → p ≢ 0
      → lookup p w.heap ≡ some (word n)
      → Engines.subscribe_benchmarks_count b h_engine p w
        ≡ returns ecode_success (record w { heap = insert p (word (length e.descriptors)) w.heap })
  unfolding Engines.subscribe_benchmarks_count check_handle_bits
  count_runs p n ne at = ground (arith, is_engine.0, is_engine.1, is_engine.2, at)

  subscribe_runs :
      (p : Address) (array : List Handle)
      → p ≢ 0
      → lookup p w.heap ≡ some (handles array)
      → length e.descriptors ≤ length array
      → Engines.subscribe_benchmarks b h_engine p (length e.descriptors) w
        ≡ returns ecode_success (record w {
          heap =
              insert p
                (handles
                  (handles_from b.sizes 0 (class_tags ds) ++ drop (length e.descriptors) array))
                w.heap;
        })
  unfolding Engines.subscribe_benchmarks check_handle_bits
  subscribe_runs p array ne at room =
      let fills =
        subscribe_benchmarks_fills b.sizes h_engine.p p e (class_tags ds) array w is_engine.2 at ne
          (Listed-Tagged w.heap e.descriptors ds listed) room in
      ground (arith, is_engine.0, is_engine.1, fills)

  describe_runs :
      (p : Address) (i : ℕ) (d : Description) (old : BenchmarkDescriptor)
      → get_elem? ds i ≡ some d
      → p ≢ 0
      → lookup p w.heap ≡ some (bench_descriptor old)
      → Engines.describe_benchmark b h_engine (description_handle b.sizes i d.class_tag) p 0 0 w
        ≡ returns ecode_success
            (record w { heap = insert p (bench_descriptor d.descriptor) w.heap })
  unfolding Engines.describe_benchmark check_handle_bits
  describe_runs p i d old at ne room =
      let (p_bd, there, alive, found, tagged) =
        Listed-get_elem? w.heap e.descriptors ds i d listed at in
      let answers =
        describe_benchmark-description_handle b.sizes h_engine.p p e i p_bd 0 d old w is_engine.2
          there alive found tagged ne room in
      ground (arith, is_engine.0, is_engine.1, answers.2)

  IsEngine-insert :
      (k : Address) (u o : Object P)
      → lookup k w.heap ≡ some u
      → u ≢ engine e
      → IsEngine h_engine e (record w { heap = insert k o w.heap })
  IsEngine-insert k u o at other = (
    is_engine.0,
    is_engine.1,
    ground (arith, lookup-insert k h_engine.p o w.heap, is_engine.2, at),
  )

module _ {P : Type 0} (b : Backend P) (h_engine : Handle) (e : Engine) (w : World P)
    (ds : List Description) (is_engine : IsEngine h_engine e w)
    (listed : Listed w.heap e.descriptors ds) where
  -- The caller who asks an engine for the number of its benchmarks gets it; subscribing to as many,
  -- with an array that has room for them, fills the front of the array with handles; and asking
  -- with each of these for its descriptor, without default parameters, gives the descriptor of the
  -- description at that position and changes nothing else.
  pub describe_benchmark-subscribe_benchmarks :
      (p_count p_descs p_desc n : ℕ) (array : List Handle) (old : BenchmarkDescriptor)
      → p_count ≢ 0
      → lookup p_count w.heap ≡ some (word n)
      → p_descs ≢ 0
      → lookup p_descs w.heap ≡ some (handles array)
      → length ds ≤ length array
      → p_desc ≢ 0
      → lookup p_desc w.heap ≡ some (bench_descriptor old)
      → (v : World P) × (u : World P) × (hs : List Handle) × (Engines.subscribe_benchmarks_count b
            h_engine p_count w
          ≡ returns ecode_success v)
        × (lookup p_count v.heap ≡ some (word (length ds)))
        × (Engines.subscribe_benchmarks b h_engine p_descs (length ds) v ≡ returns ecode_success u)
        × (lookup p_descs u.heap ≡ some (handles (hs ++ drop (length ds) array)))
        × ((i : ℕ) (d : Description)
            → get_elem? ds i ≡ some d
            → (g : Handle) × (get_elem? hs i ≡ some g)
              × (Engines.describe_benchmark b h_engine g p_desc 0 0 u
                  ≡ returns ecode_success
                      (record u { heap = insert p_desc (bench_descriptor d.descriptor) u.heap })))
  describe_benchmark-subscribe_benchmarks p_count p_descs p_desc n array old ne_count at_count
        ne_descs at_descs room ne_desc at_desc =
      let size = Listed-length w.heap e.descriptors ds listed in
      let counted : Object P = word (length e.descriptors) in
      let hs = handles_from b.sizes 0 (class_tags ds) in
      let filled : Object P = handles (hs ++ drop (length e.descriptors) array) in
      let v = record w { heap = insert p_count counted w.heap } in
      let u = record v { heap = insert p_descs filled v.heap } in
      let is_engine_v =
        IsEngine-insert b h_engine e w ds is_engine listed p_count (word n) counted at_count
          (λ same. cc) in
      let listed_v =
        Listed-insert w.heap e.descriptors ds p_count (word n) counted at_count (λ d same. cc)
          listed in
      let at_v : lookup p_descs v.heap ≡ some (handles array) =
        ground (arith, lookup-insert p_count p_descs counted w.heap, at_descs, at_count) in
      let is_engine_u =
        IsEngine-insert b h_engine e v ds is_engine_v listed_v p_descs (handles array) filled at_v
          (λ same. cc) in
      let listed_u =
        Listed-insert v.heap e.descriptors ds p_descs (handles array) filled at_v (λ d same. cc)
          listed_v in
      let desc_u : lookup p_desc u.heap ≡ some (bench_descriptor old) = ground (
        arith,
        lookup-insert p_count p_desc counted w.heap,
        lookup-insert p_descs p_desc filled v.heap,
        at_desc,
        at_count,
        at_v,
      ) in
      (
        v,
        u,
        hs,
        count_runs b h_engine e w ds is_engine listed p_count n ne_count at_count,
        lookup-insert_self p_count counted w.heap ∙ ap (λ k. some (word k)) size,
        subst (λ k. Engines.subscribe_benchmarks b h_engine p_descs k v ≡ returns ecode_success u)
            size
            (subscribe_runs b h_engine e v ds is_engine_v listed_v p_descs array ne_descs at_v
              (omega (arith, size))),
        lookup-insert_self p_descs filled v.heap
            ∙ ap (λ k. some (handles (hs ++ drop k array))) size,
        λ i d at. (
          description_handle b.sizes i d.class_tag,
          ground (arith, get_elem?-handles_from b.sizes 0 ds i d at),
          describe_runs b h_engine e u ds is_engine_u listed_u p_desc i d old at ne_desc desc_u,
        ),
      )
