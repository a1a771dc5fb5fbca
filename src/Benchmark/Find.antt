-- ===== src/Benchmark/Find.antt =====
-- The search for a parameter's data pack, `findDataPackIndex` and `findDataPack` of
-- hebench/api_bridge/src/benchmark.cpp.
use api_bridge.Base.{
  ℕ, zero, suc, ◌+◌, ◌<◌, ◌≤◌, ◌≡◌, ◌≢◌, refl, sym, subst, true, false, some, List, arith, ◌==◌,
  length, get_elem?, get_elem?-of_lt, ltb, Bool-cases, inl, inr, ◌⊎◌,
}
use api_bridge.Types.{DataPack, DataPackCollection, ecode_critical_error}
use api_bridge.Memory.{World, Outcome, Fails, returns, throws, undefined, lookup, data_packs}
use api_bridge.Benchmark.{find_loop, is_in_place, find_data_pack_index, find_data_pack}

-- A position's pack is at that index.
abbrev pub At : List DataPack → ℕ → ℕ → Type 0
At packs param_position i =
    (pack : DataPack) × (get_elem? packs i ≡ some pack) × (pack.param_position ≡ param_position)

-- No pack in the range is of that position.
abbrev pub Absent : List DataPack → ℕ → ℕ → ℕ → Type 0
Absent packs param_position start end =
    (i : ℕ)
    → start ≤ i
    → i < end
    → (pack : DataPack) → get_elem? packs i ≡ some pack
    → pack.param_position ≢ param_position

-- What a search of a range may return: an index of the range with a pack of that position, or
-- `missing`, where there is none.
abbrev pub Found : List DataPack → ℕ → ℕ → ℕ → ℕ → ℕ → Type 0
Found packs param_position start end missing i =
    ((i < end) × At packs param_position i)
    ⊎ ((i ≡ missing) × Absent packs param_position start end)

widen :
    (packs : List DataPack) (count position i r : ℕ) (pack : DataPack)
    → get_elem? packs i ≡ some pack
    → pack.param_position ≢ position
    → Found packs position (i + 1) count count r
    → Found packs position i count count r
widen packs count position i r pack at other (inl found) = inl found
widen packs count position i r pack at other (inr (e, absent)) = inr (
  e,
  λ j le lt p is. elim (Bool-cases (j == i)) [
    | inl same ↦ ground (arith, at, is)
    | inr apart ↦ absent j (ground arith) lt p is
  ],
)

module _ {P : Type 0} where
  -- Once something is found, the loop keeps it.
  found_stays :
      (packs : List DataPack) (count position left i retval : ℕ) (w : World P)
      → retval < count
      → find_loop packs count position left i retval w ≡ returns retval w
  unfolding find_loop
  found_stays packs count position zero i retval w lt = refl
  found_stays packs count position (suc left) i retval w lt = ground arith

  loop_finds :
      (packs : List DataPack) (count position left i : ℕ) (w : World P)
      → i + left ≡ count
      → count ≤ length packs
      → (r : ℕ) × (find_loop packs count position left i count w ≡ returns r w)
        × Found packs position i count count r
  unfolding find_loop
  loop_finds packs count position zero i w e room =
      (count, refl, inr (refl, λ j le lt. absurd (omega arith)))
  loop_finds packs count position (suc left) i w e room =
      let (pack, at) = get_elem?-of_lt packs i (omega arith) in
      elim (Bool-cases (pack.param_position == position)) [
        | inl here ↦ (
          i,
          ground (arith, at, found_stays packs count position left (i + 1) i w),
          inl (omega arith, (pack, at, ground arith)),
        )
        | inr elsewhere ↦
            let (r, runs, found) =
              loop_finds packs count position left (i + 1) w (omega arith) room in
            (
              r,
              ground (arith, at, runs),
              widen packs count position i r pack at (ground arith) found,
            )
      ]

  in_place_lem :
      (packs : List DataPack) (count position : ℕ) (w : World P)
      → count ≤ length packs
      → (is_in_place packs count position w ≡ returns false w)
        ⊎ ((is_in_place packs count position w ≡ returns true w)
            × (position < count)
            × At packs position position)
  unfolding is_in_place
  in_place_lem packs count position w room = elim (Bool-cases (ltb position count)) [
    | inr out ↦ inl (ground arith)
    | inl inside ↦
        let (pack, at) = get_elem?-of_lt packs position (ground arith) in
        elim (Bool-cases (pack.param_position == position)) [
          | inl here ↦ inr (ground (arith, at), ground arith, (pack, at, ground arith))
          | inr elsewhere ↦ inl (ground (arith, at))
        ]
  ]

  -- The search from the array's address: with an array that has the announced packs, it returns an
  -- index below the count with a pack of that position, or the count, where no pack is of it.
  pub find_data_pack_index-Found :
      (parameters : DataPackCollection) (position : ℕ) (packs : List DataPack) (w : World P)
      → parameters.p_data_packs ≢ 0
      → lookup parameters.p_data_packs w.heap ≡ some (data_packs packs)
      → parameters.pack_count ≤ length packs
      → (i : ℕ) × (find_data_pack_index parameters position w ≡ returns i w)
        × Found packs position 0 parameters.pack_count parameters.pack_count i
  unfolding find_data_pack_index
  find_data_pack_index-Found parameters position packs w ne at room =
      elim (in_place_lem packs parameters.pack_count position w room) [
        | inr (runs, lt, here) ↦ (position, ground (arith, runs), inl (lt, here))
        | inl runs ↦
            let (r, finds, found) =
              loop_finds packs parameters.pack_count position parameters.pack_count 0 w
                (omega arith) room in
            (r, ground (arith, runs, finds), found)
      ]

  -- What `findDataPack` does: it returns a pack of that position from the range.
  abbrev pub Picked : List DataPack → ℕ → ℕ → World P → Outcome P DataPack → Type 0
  Picked packs position count w (returns pack v) =
      (v ≡ w)
      × (pack.param_position ≡ position)
      × ((i : ℕ) × (i < count) × (get_elem? packs i ≡ some pack))
  Picked packs position count w (throws e v) =
      Fails {A = DataPack} ecode_critical_error w (throws e v) × Absent packs position 0 count
  Picked packs position count w undefined = ⊥

  missed :
      (packs : List DataPack) (position count : ℕ) (w : World P) (o : Outcome P DataPack)
      → Fails ecode_critical_error w o
      → Absent packs position 0 count
      → Picked packs position count w o
  missed packs position count w (returns pack v) fails absent = absurd fails
  missed packs position count w (throws e v) fails absent = (fails, absent)
  missed packs position count w undefined fails absent = absurd fails

  -- With an array that has the announced packs, the search for a position's pack returns a pack of
  -- that position among them, or, where none is of it, fails with the critical error; neither
  -- changes anything.
  pub find_data_pack-Picked :
      (parameters : DataPackCollection) (position : ℕ) (packs : List DataPack) (w : World P)
      → parameters.p_data_packs ≢ 0
      → lookup parameters.p_data_packs w.heap ≡ some (data_packs packs)
      → parameters.pack_count ≤ length packs
      → Picked packs position parameters.pack_count w (find_data_pack parameters position w)
  unfolding find_data_pack
  find_data_pack-Picked parameters position packs w ne at room =
      let (i, runs, found) = find_data_pack_index-Found parameters position packs w ne at room in
      elim found [
        | inl (lt, (pack, there, is)) ↦
            subst (Picked packs position parameters.pack_count w) (sym (picks i pack runs lt there))
              (refl, is, (i, lt, there))
        | inr (e, absent) ↦
            missed packs position parameters.pack_count w (find_data_pack parameters position w)
              (misses i runs e) absent
      ]
    where
      picks :
          (i : ℕ) (pack : DataPack)
          → find_data_pack_index parameters position w ≡ returns i w
          → i < parameters.pack_count
          → get_elem? packs i ≡ some pack
          → find_data_pack parameters position w ≡ returns pack w
      picks i pack runs lt there = ground (arith, runs, at, there)

      misses :
          (i : ℕ)
          → find_data_pack_index parameters position w ≡ returns i w
          → i ≡ parameters.pack_count
          → Fails ecode_critical_error w (find_data_pack parameters position w)
      misses i runs e = ground (arith, runs)
