-- ===== src/Example/Session/Ready.antt =====
-- What a client's session needs of memory, and that its calls leave it so.
use api_bridge.Base.{
  ℕ, ◌<◌, ◌≡◌, ◌≢◌, arith, some, List, ◌∷◌, get_elem?, Bool-cases, inl, inr, ◌==◌,
}
use api_bridge.Types.{Address, Handle, ParameterIndexer}
use api_bridge.Memory.{
  World, Object, lookup, Benchmark, BenchmarkHandle, benchmark, benchmark_handle, handles, indexers,
  doubles, data_packs, pack_collection,
}
use api_bridge.Engine.Handles.Sound.{IsSound}
use api_bridge.Engine.Handles.Caller.{IsPlain}
use api_bridge.Example.Benchmark.{Payload}
use api_bridge.Example.Stages.{one_value}
use api_bridge.Example.Session.{Places, Slot}
use api_bridge.Example.Session.Delivers.{IsCell, Delivered}
use api_bridge.Example.Session.Stores.{Target}

-- The benchmark is alive, the client has cells for the handles, two indexers of one value, and a
-- buffer for the result, whose own handle is in none of the cells.
pub record IsReady (c : Places) (bench : Benchmark) (count : ℕ) (w : World Payload) : Type 0 where
  pub sound : IsSound w
  pub handle : BenchmarkHandle
  pub at_handle : lookup c.h_benchmark.p w.heap ≡ some (benchmark_handle handle)
  pub at_benchmark : lookup handle.p_benchmark w.heap ≡ some (benchmark bench)
  pub cells : (s : Slot) → IsCell (c.cell s) w
  pub array : List ParameterIndexer
  pub at_indexers : lookup c.p_param_indexers w.heap ≡ some (indexers array)
  pub good : (j : ℕ) → j < 2 → get_elem? array j ≡ some one_value
  pub target : Target c.p_native count w
  pub at_buffer : target.sample.p ≡ c.p_buffer
  pub apart : (s : Slot) → target.pack.p_buffers ≢ c.cell s

-- An object that is no handles is in none of the cells.
other_kind :
    (p a : Address) (o : Object Payload) (w : World Payload)
    → IsCell p w
    → ((l : List Handle) → o ≢ handles l)
    → lookup a w.heap ≡ some o
    → a ≢ p
other_kind p a o w (old, rest, cell) other at same = other (old ∷ rest) (ground (arith, at, cell))

module _ (c : Places) (bench : Benchmark) (count : ℕ) (w v : World Payload)
    (r : IsReady c bench count w) (s : Slot) (this : Address) (tags : ℕ) (value : Payload)
    (d : Delivered (c.cell s) this tags value w v) where
  stays :
      (a : Address) (o : Object Payload)
      → IsPlain o
      → ((l : List Handle) → o ≢ handles l)
      → lookup a w.heap ≡ some o
      → lookup a v.heap ≡ some o
  stays a o plain other at = d.stays a o plain (other_kind (c.cell s) a o w (r.cells s) other at) at

  stays_cell : (t : Slot) → IsCell (c.cell t) v
  stays_cell t = elim (Bool-cases (c.cell t == c.cell s)) [
    | inl same ↦ (d.given, d.rest, ground (arith, d.cell))
    | inr other ↦
        let (old, rest, at) = r.cells t in
        (old, rest, d.stays (c.cell t) (handles (old ∷ rest)) tt (ground arith) at)
  ]

  pub Delivered-IsReady : IsReady c bench count v
  Delivered-IsReady = record {
    sound = d.sound;
    handle = r.handle;
    at_handle = stays c.h_benchmark.p (benchmark_handle r.handle) tt (λ l e. cc) r.at_handle;
    at_benchmark = stays r.handle.p_benchmark (benchmark bench) tt (λ l e. cc) r.at_benchmark;
    cells = stays_cell;
    array = r.array;
    at_indexers = stays c.p_param_indexers (indexers r.array) tt (λ l e. cc) r.at_indexers;
    good = r.good;
    target = record {
      collection = r.target.collection;
      native =
          stays c.p_native (pack_collection r.target.collection) tt (λ l e. cc) r.target.native;
      some_pack = r.target.some_pack;
      pack = r.target.pack;
      more = r.target.more;
      packs =
          stays r.target.collection.p_data_packs (data_packs (r.target.pack ∷ r.target.more)) tt
            (λ l e. cc) r.target.packs;
      some_buffer = r.target.some_buffer;
      sample = r.target.sample;
      others = r.target.others;
      buffers =
          d.stays r.target.pack.p_buffers (handles (r.target.sample ∷ r.target.others)) tt
            (r.apart s) r.target.buffers;
      numbers = r.target.numbers;
      array = stays r.target.sample.p (doubles r.target.numbers) tt (λ l e. cc) r.target.array;
      size = r.target.size;
      room = r.target.room;
    };
    at_buffer = r.at_buffer;
    apart = r.apart;
  }
