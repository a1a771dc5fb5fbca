-- ===== src/Engine/Defaults.antt =====
-- The default parameters that `describeBenchmark` of hebench/api_bridge/src/engine.cpp copies to
-- the caller.
use api_bridge.Base.{
  subst, ℕ, zero, suc, ◌+◌, ◌<◌, ◌≤◌, ◌≡◌, ◌≢◌, refl, sym, ap, ◌∙◌, min, some, List, [], ◌∷◌, ◌++◌,
  drop, arith, length, get_elem?, ◌==◌, Bool-cases, inl, inr, bit_and,
}
use api_bridge.Types.{Address, WorkloadParam, WorkloadParams, BenchmarkDescriptor}
use api_bridge.Types.Tag
use api_bridge.Memory.{
  World, Object, Engine, Description, returns, lookup, insert, lookup-insert, insert_same, engine,
  description, bench_descriptor, workload_params, params,
}
use api_bridge.Backend.{Sizes}
use api_bridge.Engine.{description_handle}
use api_bridge.Engine.Benchmarks.{default_params_loop, describe_benchmark}
use api_bridge.Engine.Subscription.{match_benchmark-description_handle}

-- The set, and behind it what was there before.
abbrev pub after_copy : List WorkloadParam → List WorkloadParam → List WorkloadParam
after_copy src dst = src ++ drop (length src) dst

-- No two of the caller's arrays are the same.
abbrev pub Apart : List WorkloadParams → Type 0
Apart array =
    (i j : ℕ) (a b : WorkloadParams)
    → get_elem? array i ≡ some a
    → get_elem? array j ≡ some b
    → i ≢ j
    → a.params ≢ b.params

after_copy_nothing : (src dst : List WorkloadParam) → length src ≡ 0 → after_copy src dst ≡ dst
after_copy_nothing [] dst e = refl
after_copy_nothing (p ∷ src) dst e = absurd (omega arith)

module _ {P : Type 0} where
  -- The caller has room for the default set at an index.
  pub record HasRoom (sets : List (List WorkloadParam)) (array : List WorkloadParams) (w : World P)
      (j : ℕ) : Type 0 where
    pub src : List WorkloadParam
    pub at_src : get_elem? sets j ≡ some src
    pub room : WorkloadParams
    pub at_room : get_elem? array j ≡ some room
    pub announced : length src ≤ room.count
    pub dst : List WorkloadParam
    pub at_dst : lookup room.params w.heap ≡ some (params dst)
    pub enough : length src ≤ length dst

  -- What the rounds from `i` on leave: each set at the front of its array, all else as it was.
  pub record Copied (sets : List (List WorkloadParam)) (array : List WorkloadParams) (i end : ℕ)
      (w v : World P) : Type 0 where
    pub copied :
        (j : ℕ) (src dst : List WorkloadParam) (room : WorkloadParams)
        → i ≤ j
        → j < end
        → get_elem? sets j ≡ some src
        → get_elem? array j ≡ some room
        → lookup room.params w.heap ≡ some (params dst)
        → lookup room.params v.heap ≡ some (params (after_copy src dst))
    pub others :
        (a : Address)
        → ((j : ℕ) (room : WorkloadParams)
            → i ≤ j
            → j < end
            → get_elem? array j ≡ some room
            → a ≢ room.params)
        → lookup a v.heap ≡ lookup a w.heap

  -- A write over an object that is no parameters leaves the room.
  described_room :
      (sets : List (List WorkloadParam)) (array : List WorkloadParams) (p : Address)
      (o old : Object P) (w : World P)
      → lookup p w.heap ≡ some old
      → ((ps : List WorkloadParam) → old ≢ params ps)
      → (j : ℕ) → HasRoom sets array w j
      → HasRoom sets array (record w { heap = insert p o w.heap }) j
  described_room sets array p o old w at other j r = record {
    src = r.src;
    at_src = r.at_src;
    room = r.room;
    at_room = r.at_room;
    announced = r.announced;
    dst = r.dst;
    at_dst = ground (arith, at, r.at_dst, other r.dst, lookup-insert p r.room.params o w.heap);
    enough = r.enough;
  }

  module _ (sets : List (List WorkloadParam)) (array : List WorkloadParams) (apart : Apart array)
      (q : Address) where
    -- The memory after one round.
    abbrev round : (j : ℕ) (w : World P) → HasRoom sets array w j → World P
    round j w r = record w { heap = insert r.room.params (params (after_copy r.src r.dst)) w.heap }

    -- Another set's room is as it was.
    rest_room :
        (i j : ℕ) (w : World P) (r : HasRoom sets array w i)
        → i ≢ j
        → HasRoom sets array w j
        → HasRoom sets array (round i w r) j
    rest_room i j w r ne s = record {
      src = s.src;
      at_src = s.at_src;
      room = s.room;
      at_room = s.at_room;
      announced = s.announced;
      dst = s.dst;
      at_dst = ground (
        arith,
        lookup-insert r.room.params s.room.params (params (after_copy r.src r.dst)) w.heap,
        apart i j r.room s.room r.at_room s.at_room ne,
        s.at_dst,
      );
      enough = s.enough;
    }

    round_nothing :
        (i : ℕ) (w : World P) (r : HasRoom sets array w i) → length r.src ≡ 0 → round i w r ≡ w
    round_nothing i w r e =
        ap (λ h. record w { heap = h })
          (ap (λ ps. insert r.room.params (params ps) w.heap) (after_copy_nothing r.src r.dst e)
            ∙ insert_same r.room.params (params r.dst) w.heap r.at_dst)

    round_runs :
        (left i : ℕ) (w : World P) (r : HasRoom sets array w i)
        → lookup q w.heap ≡ some (workload_params array)
        → default_params_loop sets q (suc left) i w
          ≡ default_params_loop sets q left (i + 1) (round i w r)
    unfolding default_params_loop
    round_runs left i w r at = elim (Bool-cases (length r.src == 0)) [
      | inl nothing ↦
          let same = round_nothing i w r (ground arith) in
          ground (arith, at, r.at_src, r.at_room, r.announced)
          ∙ ap (default_params_loop sets q left (i + 1)) (sym same)
      | inr some_param ↦ ground (arith, at, r.at_src, r.at_room, r.announced, r.at_dst, r.enough)
    ]

    round_at :
        (i : ℕ) (w : World P) (r : HasRoom sets array w i)
        → lookup q w.heap ≡ some (workload_params array)
        → lookup q (round i w r).heap ≡ some (workload_params array)
    round_at i w r at = ground (
      arith,
      at,
      r.at_dst,
      lookup-insert r.room.params q (params (after_copy r.src r.dst)) w.heap,
    )

    -- The rounds after the first, and the first.
    round-Copied :
        (i end : ℕ) (w v : World P) (r : HasRoom sets array w i)
        → i < end
        → Copied sets array (i + 1) end (round i w r) v
        → Copied sets array i end w v
    round-Copied i end w v r below c = record {
      copied = λ j src dst room lo hi at_src at_room at_dst. elim (Bool-cases (j == i)) [
        | inl same ↦
            let e : j ≡ i = ground arith in
            let last =
              c.others room.params
                (λ k other le lt there. apart j k room other at_room there (omega (arith, e))) in
            ground (
              arith,
              e,
              last,
              at_src,
              at_room,
              at_dst,
              r.at_src,
              r.at_room,
              r.at_dst,
              lookup-insert r.room.params room.params (params (after_copy r.src r.dst)) w.heap,
            )
        | inr later ↦
            let ne : i ≢ j = ground arith in
            c.copied j src dst room (ground arith) hi at_src at_room (
              ground (
                arith,
                at_dst,
                apart i j r.room room r.at_room at_room ne,
                lookup-insert r.room.params room.params (params (after_copy r.src r.dst)) w.heap,
              ))
      ];
      others = λ a free.
          let last = c.others a (λ k other le lt there. free k other (omega arith) lt there) in
          ground (
            arith,
            last,
            free i r.room (omega arith) below r.at_room,
            lookup-insert r.room.params a (params (after_copy r.src r.dst)) w.heap,
          );
    }

    pub loop_copies :
        (left i : ℕ) (w : World P)
        → ((j : ℕ) → i ≤ j → j < i + left → HasRoom sets array w j)
        → lookup q w.heap ≡ some (workload_params array)
        → (v : World P) × (default_params_loop sets q left i w ≡ returns tt v)
          × Copied sets array i (i + left) w v
    unfolding default_params_loop
    loop_copies zero i w rooms at = (
      w,
      refl,
      record { copied = λ j src dst room lo hi. absurd (omega arith); others = λ a free. refl },
    )
    loop_copies (suc left) i w rooms at =
        let r = rooms i (omega arith) (omega arith) in
        let next : (j : ℕ) → i + 1 ≤ j → j < i + 1 + left → HasRoom sets array (round i w r) j =
          λ j lo hi. rest_room i j w r (omega arith) (rooms j (omega arith) (omega arith)) in
        let (v, runs, c) = loop_copies left (i + 1) (round i w r) next (round_at i w r at) in
        (
          v,
          round_runs left i w r at ∙ runs,
          round-Copied i (i + suc left) w v r (omega arith)
              (subst (λ end. Copied sets array (i + 1) end (round i w r) v) (omega arith) c),
        )

  -- The handle of a description that is alive, with room for as many of its default sets as the
  -- caller asks for, in arrays that are apart, gives its descriptor, and each of those sets to the
  -- front of its array; every other object stays as it was.
  pub describe_benchmark_fills :
      (sizes : Sizes) (this p q : Address) (e : Engine) (i p_bd count : ℕ) (d : Description)
      (old : BenchmarkDescriptor) (array : List WorkloadParams) (w : World P)
      → lookup this w.heap ≡ some (engine e)
      → get_elem? e.descriptors i ≡ some p_bd
      → p_bd ≢ 0
      → lookup p_bd w.heap ≡ some (description d)
      → bit_and d.class_tag Tag.benchmark_description ≢ 0
      → p ≢ 0
      → lookup p w.heap ≡ some (bench_descriptor old)
      → q ≢ 0
      → lookup q w.heap ≡ some (workload_params array)
      → Apart array
      → ((j : ℕ) → j < min count (length d.default_params) → HasRoom d.default_params array w j)
      → (v : World P) × (describe_benchmark this
            (description_handle sizes i d.class_tag)
            p
            q
            count
            w
          ≡ returns tt v)
        × Copied d.default_params array 0
            (min count (length d.default_params))
            (record w { heap = insert p (bench_descriptor d.descriptor) w.heap })
            v
  unfolding describe_benchmark
  describe_benchmark_fills sizes this p q e i p_bd count d old array w is_engine at alive found
        tagged ne is_descriptor nonnull is_array apart rooms =
      let described = record w { heap = insert p (bench_descriptor d.descriptor) w.heap } in
      let matches = match_benchmark-description_handle e sizes i d.class_tag p_bd at tagged in
      let still = lookup-insert p q (bench_descriptor d.descriptor) w.heap in
      let (v, runs, c) =
        loop_copies d.default_params array apart q (min count (length d.default_params)) 0 described
          (λ j lo hi.
            described_room d.default_params array p (bench_descriptor d.descriptor)
              (bench_descriptor old) w is_descriptor (λ ps e. cc) j (rooms j (omega arith)))
          (ground (arith, is_array, is_descriptor, still)) in
      (
        v,
        ground (arith, is_engine, matches, found, is_descriptor, runs),
        subst (λ end. Copied d.default_params array 0 end described v) (omega arith) c,
      )
