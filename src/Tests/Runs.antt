-- ===== src/Tests/Runs.antt =====
-- A sequence of calls of the C API on the example backend.
use api_bridge.Base.{refl, List, [], ◌∷◌}
use api_bridge.Types.{null_handle}
use api_bridge.Memory.{World}
use api_bridge.Utilities.{copy_string}
use api_bridge.Engine.Handles.{destroy_obj}
use api_bridge.Engine.Handles.Results.{object_handle, created}
use api_bridge.Engine.Handles.Sound.{IsSound, created-IsSound}
use api_bridge.Api.{check_handle_bits}
use api_bridge.Api.Calls.{CodeCall, SizeCall, run_code, run_size}
use api_bridge.Api.Engines
use api_bridge.Api.Names
use api_bridge.Api.Runs.{Call, code, size, Runs, Runs-IsSound}
use api_bridge.Example.Backend.{example}
use api_bridge.Example.Benchmark.{Payload}
use api_bridge.Example.Safe.{example-IsSafeBackend}
use api_bridge.Tests.Start.{start, start-IsSound}
use api_bridge.Tests.Calls.{whole_numbers}

-- One handle of an empty vector, at address 10.
abbrev with_object : World Payload
with_object = created 1 [] start

abbrev without_object : World Payload
without_object = record with_object { heap = (start {P = Payload}).heap }

-- The last error is asked for, and then the handle is destroyed.
abbrev calls : List Call
calls =
    size (SizeCall.get_last_error_description null_handle 0 0)
    ∷ code (CodeCall.destroy_handle (object_handle 10 8 0x10))
    ∷ []

calls_run : Runs (example whole_numbers) calls with_object without_object
unfolding run_code run_size Engines.destroy_handle Names.get_last_error_description
    check_handle_bits copy_string destroy_obj
calls_run = (with_object, (1, refl), (without_object, (0, refl), refl))

Runs-IsSound_example : IsSound without_object
Runs-IsSound_example =
    Runs-IsSound (example whole_numbers) (example-IsSafeBackend whole_numbers) calls with_object
      without_object (created-IsSound 1 [] start start-IsSound) calls_run
