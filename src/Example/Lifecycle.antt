-- ===== src/Example/Lifecycle.antt =====
-- The lives of engines and benchmarks, from `initEngine` and `createBenchmark` of
-- hebench/api_bridge/src/main.cpp to `destroyHandle`, on the example backend: what an object took
-- from memory, its end gives back.
use api_bridge.Base.{ℕ, suc, ◌≡◌, ◌≢◌, ◌≤◌, refl, arith, none, some, List, [], ◌∷◌}
use api_bridge.Text.{codes}
use api_bridge.Types.{Address, Handle, ecode_success}
use api_bridge.Types.Tag
use api_bridge.Memory.{
  World, Engine, Description, returns, lookup, insert, engine, description, handles, lookup-insert,
  Fresh, lookup_lt, lookup-insert_self,
}
use api_bridge.Params.{ok}
use api_bridge.Api.{check_handle_bits}
use api_bridge.Api.Engines.{init_engine, destroy_handle}
use api_bridge.Engine.{add_scheme_name, add_security_name, add_benchmark_description}
use api_bridge.Example.{Platform, Versions}
use api_bridge.Example.Workload.{example_description}
use api_bridge.Example.Engine.{
  example_engine, create_engine, create, init, destroy_engine, free_descriptions,
}
use api_bridge.Example.Backend.{example}
use api_bridge.Example.Benchmark.{Payload}

-- The backend's description can be built.
pub example_description_is : (d : Description) × (example_description ≡ ok d)
unfolding example_description api_bridge.Params.Fixed.matrix_multiply api_bridge.Params.set_named
    api_bridge.Utilities.write_string codes api_bridge.Params.put
    api_bridge.Benchmark.Description.add_default_parameters
example_description_is = (_, refl)

pub example_description_tag : example_description_is.0.class_tag ≡ Tag.benchmark_description
unfolding example_description_is
example_description_tag = refl

-- The engine that `init` leaves.
abbrev pub initialized : Address → Engine
initialized p_desc = record (example_engine) {
  descriptors = p_desc ∷ [];
  map_scheme_name = (0, codes "Plain") ∷ [];
  map_security_name = (0, codes "None") ∷ [];
}

-- The versions that the backend was built for.
abbrev pub Supports : Versions → Type 0
Supports v =
    (v.major ≡ v.needed_major) × (v.minor ≡ v.needed_minor) × (v.needed_revision ≤ v.revision)

abbrev pub engine_handle : Platform → Address → Handle
engine_handle platform p = record {
  p = p;
  size = platform.sizes.base_engine;
  tag = Tag.base_engine;
}

abbrev pub with_engine : World Payload → World Payload
with_engine w = record w {
  heap =
      (suc w.next, description example_description_is.0)
      ∷ (w.next, engine (initialized (suc w.next)))
      ∷ w.heap;
  next = suc (suc w.next);
}

create_engine_lem :
    (v : Versions) (p_buffer size : ℕ) (w : World Payload)
    → Supports v
    → create_engine v p_buffer size w ≡ returns w.next (with_engine w)
unfolding create_engine create init add_scheme_name add_security_name add_benchmark_description
create_engine_lem v p_buffer size w supports = ground (arith, example_description_is.1)

-- The memory with the new engine's handle in the caller's cell.
abbrev pub started : Platform → Address → List Handle → World Payload → World Payload
started platform p rest w = record (with_engine w) {
  heap = insert p (handles (engine_handle platform w.next ∷ rest)) (with_engine w).heap;
}

pub init_engine_lem :
    (platform : Platform) (p p_buffer size : ℕ) (old : Handle) (rest : List Handle)
    (w : World Payload)
    → Supports platform.versions
    → Fresh w.next w.heap
    → p ≢ 0
    → lookup p w.heap ≡ some (handles (old ∷ rest))
    → init_engine (example platform) p p_buffer size w
      ≡ returns ecode_success (started platform p rest w)
unfolding init_engine
init_engine_lem platform p p_buffer size old rest w supports fresh ne cell = ground (
  arith,
  cell,
  create_engine_lem platform.versions p_buffer size w supports,
  lookup_lt w.next p (handles (old ∷ rest)) w.heap fresh cell,
)

-- The memory after the engine's end: only the caller's cell has changed.
abbrev ended : Platform → Address → List Handle → World Payload → World Payload
ended platform p rest w = record (started platform p rest w) {
  heap = insert p (handles (engine_handle platform w.next ∷ rest)) w.heap;
}

destroy_handle_lem :
    (platform : Platform) (p : Address) (old : Handle) (rest : List Handle) (w : World Payload)
    → Fresh w.next w.heap
    → w.next ≢ 0
    → lookup p w.heap ≡ some (handles (old ∷ rest))
    → destroy_handle (example platform) (engine_handle platform w.next) (started platform p rest w)
      ≡ returns ecode_success (ended platform p rest w)
unfolding destroy_handle check_handle_bits destroy_engine free_descriptions
destroy_handle_lem platform p old rest w fresh ne cell =
    ground (arith, cell, lookup_lt w.next p (handles (old ∷ rest)) w.heap fresh cell)

-- In a memory whose addresses are each there once, below the next fresh one, and not null, with a
-- cell for a handle and the versions that the backend was built for, `initEngine` succeeds and puts
-- there the handle of an engine of one scheme, one security and one description; destroying that
-- handle succeeds and leaves every object as it was before, but for the cell.
pub destroy_handle-init_engine :
    (platform : Platform) (p p_buffer size : ℕ) (old : Handle) (rest : List Handle)
    (w : World Payload)
    → Supports platform.versions
    → Fresh w.next w.heap
    → lookup 0 w.heap ≡ none
    → w.next ≢ 0
    → lookup p w.heap ≡ some (handles (old ∷ rest))
    → (g : Handle) × (v : World Payload) × (u : World Payload) × (init_engine
          (example platform)
          p
          p_buffer
          size
          w
        ≡ returns ecode_success v)
      × (lookup p v.heap ≡ some (handles (g ∷ rest)))
      × (lookup g.p v.heap ≡ some (engine (initialized (suc g.p))))
      × (destroy_handle (example platform) g v ≡ returns ecode_success u)
      × (u.heap ≡ insert p (handles (g ∷ rest)) w.heap)
destroy_handle-init_engine platform p p_buffer size old rest w supports fresh null_free started_at
      cell =
    (
      engine_handle platform w.next,
      started platform p rest w,
      ended platform p rest w,
      init_engine_lem platform p p_buffer size old rest w supports fresh
          (ground (arith, null_free, cell)) cell,
      ground (
        arith,
        lookup_lt w.next p (handles (old ∷ rest)) w.heap fresh cell,
        lookup-insert_self p (handles (engine_handle platform w.next ∷ rest)) w.heap,
      ),
      ground (
        arith,
        lookup_lt w.next p (handles (old ∷ rest)) w.heap fresh cell,
        lookup-insert p w.next (handles (engine_handle platform w.next ∷ rest)) w.heap,
      ),
      destroy_handle_lem platform p old rest w fresh started_at cell,
      refl,
    )
