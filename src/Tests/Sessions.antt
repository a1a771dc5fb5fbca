-- ===== src/Tests/Sessions.antt =====
-- A client's session with the example backend, on two matrices.
use api_bridge.Base.{
  ℕ, zero, suc, ◌*◌, ◌≡◌, refl, arith, some, List, [], ◌∷◌, length, replicate, length-replicate,
  inr, append-nil, ◌≢◌, sym, ap,
}
use api_bridge.Types.{Address, Handle, null_handle, DataPack, ecode_success, ecode_critical_error}
use api_bridge.Memory.{
  World, returns, lookup, engine, benchmark, benchmark_handle, handles, doubles, data_packs,
  pack_collection, indexers, workload_params, params, bench_descriptor,
}
use api_bridge.Engine.{initial_error_desc}
use api_bridge.Engine.Handles.Sound.{IsSound}
use api_bridge.Example.Matrix.{Matrix, dim}
use api_bridge.Example.Benchmark.{Payload}
use api_bridge.Example.Samples.{flatten, HasWidth}
use api_bridge.Example.Stages.{one_value}
use api_bridge.Example.Workload.{example_descriptor}
use api_bridge.Example.Session.{Places, Slot, session}
use api_bridge.Example.Session.Delivers.{IsCell}
use api_bridge.Example.Session.Encodes.{Samples, IsSquare}
use api_bridge.Example.Session.Stores.{Target}
use api_bridge.Example.Session.Ready.{IsReady}
use api_bridge.Example.Session.Product.{Computes, session-Computes}
use api_bridge.Engine.Handles.Sharing.{Holds}
use api_bridge.Api.Calls.{CodeCall, run_code}
use api_bridge.Api.Guards.{Reports}
use api_bridge.Example.Backend.{example}
use api_bridge.Example.Inverse.{decode-encode}
use api_bridge.Tests.Start.{small_engine, small_benchmark, both_one_value}
use api_bridge.Tests.Calls.{whole_numbers}
use api_bridge.Tests.Lifecycles.{dims}

-- Every entry is this number.
abbrev pub constant : ℕ → Matrix
constant n = replicate dim (replicate dim n)

replicate-HasWidth :
    (n width : ℕ) (row : List ℕ) → length row ≡ width → HasWidth width (replicate n row)
replicate-HasWidth zero width row e = tt
replicate-HasWidth (suc n) width row e = (e, replicate-HasWidth n width row e)

pub constant-IsSquare : (n : ℕ) → IsSquare (constant n)
constant-IsSquare n = (
  length-replicate dim (replicate dim n),
  replicate-HasWidth dim dim (replicate dim n) (length-replicate dim n),
)

abbrev buffer : Address → ℕ → Handle
buffer p count = record { p = p; size = 8 * count; tag = 0 }

abbrev pack : Address → ℕ → DataPack
pack p position = record { p_buffers = p; buffer_count = 1; param_position = position }

abbrev pub cell : Slot → Address
cell Slot.plaintext = 10
cell Slot.ciphertext = 11
cell Slot.remote = 12
cell Slot.result = 13
cell Slot.local = 14
cell Slot.decrypted = 15

abbrev pub places : Places
places = record {
  h_benchmark = record { p = 3; size = 0; tag = 0 };
  p_parameters = 4;
  cell = cell;
  p_param_indexers = 16;
  p_native = 17;
  p_buffer = 20;
}

abbrev zeros : List ℕ
zeros = replicate (dim * dim) 0

abbrev pub memory : World Payload
memory = record {
  heap =
      (1, engine small_engine)
      ∷ (2, benchmark small_benchmark)
      ∷ (3, benchmark_handle (record { p_benchmark = 2; p_bench_description = 0 }))
      ∷ (4, pack_collection (record { p_data_packs = 5; pack_count = 2 }))
      ∷ (5, data_packs (pack 7 1 ∷ pack 6 0 ∷ []))
      ∷ (6, handles (buffer 8 (dim * dim) ∷ []))
      ∷ (7, handles (buffer 9 (dim * dim) ∷ []))
      ∷ (8, doubles (flatten (constant 2)))
      ∷ (9, doubles (flatten (constant 3)))
      ∷ (10, handles (null_handle ∷ []))
      ∷ (11, handles (null_handle ∷ []))
      ∷ (12, handles (null_handle ∷ []))
      ∷ (13, handles (null_handle ∷ []))
      ∷ (14, handles (null_handle ∷ []))
      ∷ (15, handles (null_handle ∷ []))
      ∷ (16, indexers (one_value ∷ one_value ∷ []))
      ∷ (17, pack_collection (record { p_data_packs = 18; pack_count = 1 }))
      ∷ (18, data_packs (pack 19 0 ∷ []))
      ∷ (19, handles (buffer 20 (length zeros) ∷ []))
      ∷ (20, doubles zeros)
      ∷ (21, handles (null_handle ∷ []))
      ∷ (22, handles (null_handle ∷ []))
      ∷ (23, handles (null_handle ∷ []))
      ∷ (24, workload_params (record { params = 25; count = 3 } ∷ []))
      ∷ (25, params dims)
      ∷ (26, bench_descriptor example_descriptor)
      ∷ [];
  next = 27;
  last_error = 0;
  last_error_description = [];
  map_error_desc = initial_error_desc;
}

pub memory-IsSound : IsSound memory
memory-IsSound = record {
  fresh = ground arith;
  null_free = refl;
  started = omega arith;
  counted = λ a s e. ground arith;
  owned = λ a s e. ground arith;
  alive = λ q obj e. absurd (ground arith);
}

pub memory-IsCell : (s : Slot) → IsCell (cell s) memory
memory-IsCell Slot.plaintext = (null_handle, [], refl)
memory-IsCell Slot.ciphertext = (null_handle, [], refl)
memory-IsCell Slot.remote = (null_handle, [], refl)
memory-IsCell Slot.result = (null_handle, [], refl)
memory-IsCell Slot.local = (null_handle, [], refl)
memory-IsCell Slot.decrypted = (null_handle, [], refl)

pub cell-apart : (s : Slot) → 19 ≢ cell s
cell-apart Slot.plaintext = omega arith
cell-apart Slot.ciphertext = omega arith
cell-apart Slot.remote = omega arith
cell-apart Slot.result = omega arith
cell-apart Slot.local = omega arith
cell-apart Slot.decrypted = omega arith

abbrev pub memory_target : Target 17 (dim * dim) memory
memory_target = record {
  collection = record { p_data_packs = 18; pack_count = 1 };
  native = refl;
  some_pack = omega arith;
  pack = pack 19 0;
  more = [];
  packs = refl;
  some_buffer = omega arith;
  sample = buffer 20 (length zeros);
  others = [];
  buffers = refl;
  numbers = zeros;
  array = refl;
  size = refl;
  room = length-replicate (dim * dim) 0;
}

memory-IsReady : IsReady places small_benchmark (dim * dim) memory
memory-IsReady = record {
  sound = memory-IsSound;
  handle = record { p_benchmark = 2; p_bench_description = 0 };
  at_handle = refl;
  at_benchmark = refl;
  cells = memory-IsCell;
  array = one_value ∷ one_value ∷ [];
  at_indexers = refl;
  good = both_one_value;
  target = memory_target;
  at_buffer = refl;
  apart = cell-apart;
}

abbrev pub memory_samples : Samples 4 (constant 2) (constant 3) memory
memory_samples = record {
  collection = record { p_data_packs = 5; pack_count = 2 };
  parameters = refl;
  two = refl;
  nonnull = omega arith;
  pack0 = pack 6 0;
  pack1 = pack 7 1;
  packs = inr refl;
  position0 = refl;
  position1 = refl;
  sample0 = record {
    nonnull = omega arith;
    sample = buffer 8 (dim * dim);
    others = [];
    buffers = refl;
    present = omega arith;
    tail = [];
    numbers = ap (λ l. some (doubles l)) (sym (append-nil (flatten (constant 2))));
  };
  sample1 = record {
    nonnull = omega arith;
    sample = buffer 9 (dim * dim);
    others = [];
    buffers = refl;
    present = omega arith;
    tail = [];
    numbers = ap (λ l. some (doubles l)) (sym (append-nil (flatten (constant 3))));
  };
}

session-Computes_example :
    Computes whole_numbers places small_benchmark
      (constant 2)
      (constant 3)
      memory
      (session whole_numbers places memory)
session-Computes_example =
    session-Computes whole_numbers places small_benchmark (constant 2) (constant 3) memory
      memory-IsReady memory_samples (constant-IsSquare 2) (constant-IsSquare 3)

decode-encode_example :
    (v : World Payload) × (g : Handle) × (rest : List Handle) × (run_code
        (example whole_numbers)
        (CodeCall.encode places.h_benchmark 4 10)
        memory
      ≡ returns ecode_success v)
    × (lookup 10 v.heap ≡ some (handles (g ∷ rest)))
    × Holds 1 (constant 2 ∷ constant 3 ∷ []) g v
    × Reports ecode_critical_error v
        (run_code (example whole_numbers) (CodeCall.decode places.h_benchmark g 17) v)
decode-encode_example =
    decode-encode whole_numbers places small_benchmark (dim * dim) 17 (constant 2) (constant 3)
      memory memory-IsReady memory_samples (constant-IsSquare 2) (constant-IsSquare 3) (omega arith)
