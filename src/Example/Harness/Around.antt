-- ===== src/Example/Harness/Around.antt =====
-- What the harness has in memory before it starts an engine, and that no call on the way to the
-- session spoils it.
use api_bridge.Base.{
  ℕ, ◌<◌, ◌≤◌, ◌*◌, ◌≡◌, ◌≢◌, arith, some, List, ◌∷◌, get_elem?, Bool-cases, inl, inr, ◌==◌, length,
  take, ◌++◌,
}
use api_bridge.Types.{
  DataPack, Address, Handle, ParameterIndexer, WorkloadParam, WorkloadParams, BenchmarkDescriptor,
}
use api_bridge.Memory.{
  World, Object, lookup, handles, indexers, doubles, data_packs, pack_collection, workload_params,
  params, bench_descriptor,
}
use api_bridge.Engine.Handles.Caller.{IsPlain, Stays}
use api_bridge.Example.Matrix.{Matrix, dim}
use api_bridge.Example.Benchmark.{Payload}
use api_bridge.Example.Samples.{flatten}
use api_bridge.Example.Accepts.{Fits}
use api_bridge.Example.Stages.{one_value}
use api_bridge.Example.Session.{Slot}
use api_bridge.Example.Session.Delivers.{IsCell}
use api_bridge.Example.Session.Stores.{Target}
use api_bridge.Example.Session.Encodes.{Sample, Samples}
use api_bridge.Example.Harness.{Role, Desk}

-- Cells for all handles, the workload's parameters, which fit, a concrete descriptor, two indexers
-- of one value, the samples of two matrices and a buffer for the result; the arrays of buffers are
-- in none of the cells that are written, and the cells of the engine and its description are two.
pub record Around (d : Desk) (m0 m1 : Matrix) (w : World Payload) : Type 0 where
  pub own : (k : Role) → IsCell (d.own k) w
  pub cells : (s : Slot) → IsCell (d.places.cell s) w
  pub bench_params : WorkloadParams
  pub more : List WorkloadParams
  pub at_params : lookup d.p_params w.heap ≡ some (workload_params (bench_params ∷ more))
  pub values : List WorkloadParam
  pub at_values : lookup bench_params.params w.heap ≡ some (params values)
  pub enough : bench_params.count ≤ length values
  pub fits : Fits (take bench_params.count values)
  pub bench_desc : BenchmarkDescriptor
  pub at_bench_desc : lookup d.p_bench_desc w.heap ≡ some (bench_descriptor bench_desc)
  pub array : List ParameterIndexer
  pub at_indexers : lookup d.places.p_param_indexers w.heap ≡ some (indexers array)
  pub good : (j : ℕ) → j < 2 → get_elem? array j ≡ some one_value
  pub samples : Samples d.places.p_parameters m0 m1 w
  pub target : Target d.places.p_native (dim * dim) w
  pub at_buffer : target.sample.p ≡ d.places.p_buffer
  pub apart : (s : Slot) → target.pack.p_buffers ≢ d.places.cell s
  pub free_target : (k : Role) → target.pack.p_buffers ≢ d.own k
  pub free0 : (k : Role) → samples.pack0.p_buffers ≢ d.own k
  pub free1 : (k : Role) → samples.pack1.p_buffers ≢ d.own k
  pub separate : d.own Role.engine ≢ d.own Role.description

module _ (d : Desk) (m0 m1 : Matrix) (w v : World Payload) (a : Around d m0 m1 w) (k : Role)
    (keeps : Stays (d.own k) w v) (cell : IsCell (d.own k) v) where
  -- An object that is no array of handles is not in the cell that is written.
  stays :
      (p : Address) (o : Object Payload)
      → IsPlain o
      → ((l : List Handle) → o ≢ handles l)
      → lookup p w.heap ≡ some o
      → lookup p v.heap ≡ some o
  stays p o plain other at =
      let (old, rest, here) = a.own k in
      keeps p o plain (λ same. other (old ∷ rest) (ground (arith, at, here))) at

  stays_cell : (p : Address) → IsCell p w → IsCell p v
  stays_cell p (old, rest, at) = elim (Bool-cases (p == d.own k)) [
    | inl same ↦ let (g, more, here) = cell in (g, more, ground (arith, here))
    | inr other ↦ (old, rest, keeps p (handles (old ∷ rest)) tt (ground arith) at)
  ]

  stays-Sample :
      (pack : DataPack) (mat : Matrix)
      → pack.p_buffers ≢ d.own k
      → Sample pack mat w
      → Sample pack mat v
  stays-Sample pack mat free s = record {
    nonnull = s.nonnull;
    sample = s.sample;
    others = s.others;
    buffers = keeps pack.p_buffers (handles (s.sample ∷ s.others)) tt free s.buffers;
    present = s.present;
    tail = s.tail;
    numbers = stays s.sample.p (doubles (flatten mat ++ s.tail)) tt (λ l e. cc) s.numbers;
  }

  stays_samples : Samples d.places.p_parameters m0 m1 v
  stays_samples = record {
    collection = a.samples.collection;
    parameters =
        stays d.places.p_parameters (pack_collection a.samples.collection) tt (λ l e. cc)
          a.samples.parameters;
    two = a.samples.two;
    nonnull = a.samples.nonnull;
    pack0 = a.samples.pack0;
    pack1 = a.samples.pack1;
    packs = elim a.samples.packs [
      | inl at ↦ inl (stays _ _ tt (λ l e. cc) at)
      | inr at ↦ inr (stays _ _ tt (λ l e. cc) at)
    ];
    position0 = a.samples.position0;
    position1 = a.samples.position1;
    sample0 = stays-Sample a.samples.pack0 m0 (a.free0 k) a.samples.sample0;
    sample1 = stays-Sample a.samples.pack1 m1 (a.free1 k) a.samples.sample1;
  }

  stays_target : Target d.places.p_native (dim * dim) v
  stays_target = record {
    collection = a.target.collection;
    native =
        stays d.places.p_native (pack_collection a.target.collection) tt (λ l e. cc)
          a.target.native;
    some_pack = a.target.some_pack;
    pack = a.target.pack;
    more = a.target.more;
    packs =
        stays a.target.collection.p_data_packs (data_packs (a.target.pack ∷ a.target.more)) tt
          (λ l e. cc) a.target.packs;
    some_buffer = a.target.some_buffer;
    sample = a.target.sample;
    others = a.target.others;
    buffers =
        keeps a.target.pack.p_buffers (handles (a.target.sample ∷ a.target.others)) tt
          (a.free_target k) a.target.buffers;
    numbers = a.target.numbers;
    array = stays a.target.sample.p (doubles a.target.numbers) tt (λ l e. cc) a.target.array;
    size = a.target.size;
    room = a.target.room;
  }

  pub Stays-Around : Around d m0 m1 v
  unfolding stays_samples stays_target
  Stays-Around = record {
    own = λ j. stays_cell (d.own j) (a.own j);
    cells = λ s. stays_cell (d.places.cell s) (a.cells s);
    bench_params = a.bench_params;
    more = a.more;
    at_params =
        stays d.p_params (workload_params (a.bench_params ∷ a.more)) tt (λ l e. cc) a.at_params;
    values = a.values;
    at_values = stays a.bench_params.params (params a.values) tt (λ l e. cc) a.at_values;
    enough = a.enough;
    fits = a.fits;
    bench_desc = a.bench_desc;
    at_bench_desc =
        stays d.p_bench_desc (bench_descriptor a.bench_desc) tt (λ l e. cc) a.at_bench_desc;
    array = a.array;
    at_indexers = stays d.places.p_param_indexers (indexers a.array) tt (λ l e. cc) a.at_indexers;
    good = a.good;
    samples = stays_samples;
    target = stays_target;
    at_buffer = a.at_buffer;
    apart = a.apart;
    free_target = a.free_target;
    free0 = a.free0;
    free1 = a.free1;
    separate = a.separate;
  }
