-- ===== src/Tests/Asks.antt =====
-- Calls on the example's benchmark that end in different ways.
use api_bridge.Base.{◌+◌, ◌-◌, ◌≡◌, refl, arith, inl, [], ◌∷◌, length, min}
use api_bridge.Text.{codes}
use api_bridge.Types.{Handle, ecode_critical_error, ecode_invalid_args}
use api_bridge.Memory.{World, Exception, BenchmarkHandle, returns, throws, insert, chars}
use api_bridge.Utilities.Laws.{terminated}
use api_bridge.Api.{what}
use api_bridge.Api.Calls.{CodeCall, SizeCall, run_code, run_size}
use api_bridge.Api.Guards.{Reports}
use api_bridge.Api.Asks.{
  IsAsked, ask, settle, run_code-settles, get_last_error_description-run_code,
}
use api_bridge.Example.Backend.{example}
use api_bridge.Example.Benchmark.{Payload, encode, invalid_args}
use api_bridge.Example.Misuse.{run_code-misused}
use api_bridge.Tests.Calls.{whole_numbers}
use api_bridge.Tests.Start.{small_benchmark}
use api_bridge.Tests.Sessions.{memory}

-- The memory of the session, with an array for a text.
abbrev noting : World Payload
noting = record memory { heap = (27, chars (1 ∷ 2 ∷ 3 ∷ 4 ∷ [])) ∷ memory.heap; next = 28 }

abbrev h_benchmark : Handle
h_benchmark = record { p = 3; size = 0; tag = 0 }

abbrev its_object : BenchmarkHandle
its_object = record { p_benchmark = 2; p_bench_description = 0 }

-- The collection at 17 has one pack; the benchmark wants two.
abbrev encoding : CodeCall
encoding = CodeCall.encode h_benchmark 17 10

encoding-IsAsked : IsAsked encoding its_object noting
encoding-IsAsked = (
  omega arith,
  refl,
  (record { p_data_packs = 18; pack_count = 1 }, omega arith, refl, inl (omega arith), omega arith),
)

abbrev wrong_number : Exception
wrong_number =
    invalid_args "encode" 134
      (codes "Invalid number of parameters detected in parameter pack. Expected 2.")

encoding_throws : ask (example whole_numbers) encoding 2 noting ≡ throws wrong_number noting
unfolding encode
encoding_throws = refl

run_code-settles_example :
    run_code (example whole_numbers) encoding noting
    ≡ settle (example whole_numbers) 10 (ask (example whole_numbers) encoding 2 noting)
run_code-settles_example =
    run_code-settles (example whole_numbers) encoding its_object noting encoding-IsAsked

get_last_error_description-run_code_example :
    (v : World Payload) × (run_code (example whole_numbers) encoding noting
      ≡ returns ecode_invalid_args v)
    × (v.last_error ≡ ecode_invalid_args)
    × (run_size (example whole_numbers) (SizeCall.get_last_error_description h_benchmark 27 4) v
        ≡ returns (length (what (example whole_numbers) wrong_number) + 1) (record v {
          heap =
              insert 27
                (chars (
                  terminated
                    (min 4 (length (what (example whole_numbers) wrong_number) + 1) - 1)
                    (what (example whole_numbers) wrong_number)
                    (1 ∷ 2 ∷ 3 ∷ 4 ∷ [])))
                noting.heap;
        }))
get_last_error_description-run_code_example =
    get_last_error_description-run_code (example whole_numbers) encoding its_object noting noting
      wrong_number h_benchmark 27 4 (1 ∷ 2 ∷ 3 ∷ 4 ∷ []) encoding-IsAsked encoding_throws (λ e. cc)
      (omega arith) (omega arith) refl (omega arith)

-- A handle that is no object's.
abbrev stray : Handle
stray = record { p = 9; size = 0; tag = 0 }

run_code-misused_example :
    Reports ecode_critical_error memory
      (run_code (example whole_numbers) (CodeCall.encrypt h_benchmark stray 10) memory)
run_code-misused_example =
    run_code-misused whole_numbers (CodeCall.encrypt h_benchmark stray 10) its_object
      small_benchmark memory (omega arith, refl, (omega arith, omega arith)) refl
      (inl (omega arith))
