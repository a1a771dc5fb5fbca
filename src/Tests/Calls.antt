-- ===== src/Tests/Calls.antt =====
-- Calls of the C API at work, on the example backend with a machine that adds and multiplies whole
-- numbers for doubles.
use api_bridge.Base.{◌+◌, ◌*◌, ◌≡◌, ◌≢◌, refl, arith, none, inl, inr, [], ◌∷◌}
use api_bridge.Types.{Handle, ecode_critical_error, ecode_invalid_args, null_handle, ecode_success}
use api_bridge.Types.Tag
use api_bridge.Memory.{
  World, returns, throws, lookup, Exception, hebench_error, unmatched, insert, chars,
  pack_collection,
}
use api_bridge.Text.{Text}
use api_bridge.Engine.{wrong_count}
use api_bridge.Engine.Subscription.{subscribe_benchmarks_refuses}
use api_bridge.Api.{check_handle_bits, catch_code}
use api_bridge.Api.Engines
use api_bridge.Engine.Handles.Results.{object_handle, created}
use api_bridge.Engine.Handles.Sound.{IsSound, created-IsSound}
use api_bridge.Engine.Handles.Sharing.{Keeps, created-Holds}
use api_bridge.Backend.{Backend}
use api_bridge.Example.{Platform}
use api_bridge.Example.Benchmark.{Payload}
use api_bridge.Example.Backend.{example}
use api_bridge.Api.Calls.{CodeCall, SizeCall, run_code, run_size}
use api_bridge.Api.Engines.{destroy_handle}
use api_bridge.Api.Guards.{Reports, run_code-refuses, run_size-refuses}
use api_bridge.Api.Texts.{run_size-stores}
use api_bridge.Api.Destroy.{destroy_handle-Holds}
use api_bridge.Api.Laws.{run_code-ne-throws, run_size-ne-throws}
use api_bridge.Tests.Start.{start, start-IsSound, small_engine}

abbrev pub whole_numbers : Platform
whole_numbers = record {
  double_add = λ a b. a + b;
  double_mul = λ a b. a * b;
  sizeof_vector = 24;
  sizeof_matrix = 24;
  sizes = record { base_engine = 8; benchmark_description = 8; benchmark_handle = 16 };
  versions = record {
    major = 0;
    minor = 8;
    revision = 0;
    needed_major = 0;
    needed_minor = 8;
    needed_revision = 0;
  };
  library_what = λ kind. [];
}

abbrev plain : Backend Payload
plain = example whole_numbers

abbrev empty : World Payload
empty = start

run_code-ne-throws_example :
    run_code plain (CodeCall.init_benchmark null_handle 0) empty ≢ throws unmatched empty
run_code-ne-throws_example =
    run_code-ne-throws plain (CodeCall.init_benchmark null_handle 0) empty empty unmatched

run_size-ne-throws_example :
    run_size plain (SizeCall.get_scheme_name null_handle 0 0 0) empty ≢ throws unmatched empty
run_size-ne-throws_example =
    run_size-ne-throws plain (SizeCall.get_scheme_name null_handle 0 0 0) empty empty unmatched

-- The memory with the caller's two packs.
abbrev packed : World Payload
packed = record empty {
  heap = (20, pack_collection (record { p_data_packs = 7; pack_count = 2 })) ∷ empty.heap;
  next = 21;
}

run_code-refuses_example :
    Reports ecode_critical_error packed
      (run_code plain (CodeCall.encode (record { p = 10; size = 0; tag = 0 }) 20 0) packed)
run_code-refuses_example =
    run_code-refuses plain (CodeCall.encode (record { p = 10; size = 0; tag = 0 }) 20 0) packed
      (inr (inr (record { p_data_packs = 7; pack_count = 2 }, refl, inr refl)))

run_size-refuses_example :
    Reports ecode_critical_error empty
      (run_size plain (SizeCall.get_scheme_name null_handle 0 0 0) empty)
run_size-refuses_example =
    run_size-refuses plain (SizeCall.get_scheme_name null_handle 0 0 0) empty (inl refl)

-- The handle of an engine whose class adds a bit to the tag of engines.
abbrev derived : Handle
derived = record { p = 1; size = 8; tag = 0x8000_0000_0000_0001 }

destroy_handle-Holds_example :
    (v : World Payload) × (destroy_handle plain (object_handle 10 8 0x10) (created 1 [] empty)
      ≡ returns ecode_success v)
    × (lookup 10 v.heap ≡ none)
    × IsSound v
    × Keeps 10 (created 1 [] empty) v
destroy_handle-Holds_example =
    destroy_handle-Holds plain 1 [] (object_handle 10 8 0x10) (created 1 [] empty)
      (created-IsSound 1 [] empty start-IsSound) (created-Holds 1 8 0x10 [] empty) (ground arith)

abbrev engine_handle : Handle
engine_handle = record { p = 1; size = 8; tag = Tag.base_engine }

abbrev text_of : Exception → Text
text_of (hebench_error text code) = text
text_of _ = []

-- Two descriptions are there and five are asked for.
abbrev refused : World Payload
refused = record empty {
  last_error = ecode_invalid_args;
  last_error_description = text_of (wrong_count 2 5);
}

asks_for_five :
    run_code plain (CodeCall.subscribe_benchmarks engine_handle 3 5) empty
    ≡ returns ecode_invalid_args refused
unfolding run_code Engines.subscribe_benchmarks check_handle_bits catch_code
asks_for_five =
    let fails =
      subscribe_benchmarks_refuses whole_numbers.sizes 1 3 small_engine 5 empty refl (omega arith)
        (omega arith) in
    ground (arith, fails)

-- A memory with a last error.
abbrev reported : World Payload
reported = record empty { last_error_description = 65 ∷ 66 ∷ [] }

run_size-stores_example :
    run_size plain (SizeCall.get_last_error_description null_handle 8 2) reported
    ≡ returns 3 (record reported { heap = insert 8 (chars (65 ∷ 0 ∷ 3 ∷ [])) reported.heap })
run_size-stores_example =
    run_size-stores plain (SizeCall.get_last_error_description null_handle 8 2) (65 ∷ 66 ∷ [])
      (1 ∷ 2 ∷ 3 ∷ []) reported refl (omega arith) (omega arith) refl (omega arith)
