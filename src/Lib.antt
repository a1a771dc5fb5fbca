-- ===== src/Lib.antt =====
-- The HEBench API Bridge: the C interface between the HEBench test harness and a backend, the C++
-- wrapper that implements it over classes of the backend, an example backend, and a loader of
-- backends as shared libraries.
--
-- Parts and files:
--   * `Types`: hebench/api_bridge/types.h, with its enumerations in `Types/ParamType`,
--     `Types/Workload`, `Types/DataType` and `Types/Category`; `Types/Tag`: the tags of the wrapper's
--     classes (`ITaggedObject`).
--   * `Text`, with `Text/Message`: bytes of strings, `std::to_string`, and
--     `HEBenchError::generateMessage` of hebench/api_bridge/src/error_handling.cpp. `Text/Decimal` reads
--     numbers back.
--   * `Memory`: the heap that caller, wrapper and backend share, the static members of `BaseEngine`,
--     and the monad of the code: it returns, throws, or is undefined. A null, dangling or wrongly typed
--     pointer is undefined, and so is an access out of bounds.
--   * `Utilities`: `copyString` of hebench/api_bridge/src/utilities.cpp.
--   * `Params`: hebench/api_bridge/cpp/workload_params.hpp, `Common` and the classes of workloads;
--     `Params/VectorSize` and `Params/SetIntersection` have the accessors of workloads with few
--     parameters. `Params/Construction` is about their constructors, through the predicate of `Params/Filled`.
--   * `Engine`, with `Engine/Benchmarks` and `Engine/Handles`: `BaseEngine` of
--     hebench/api_bridge/src/engine.cpp and hebench/api_bridge/cpp/engine.hpp, and `EngineObject` of
--     hebench/api_bridge/cpp/engine_object.hpp. A shared pointer is the address of a block with its
--     value and the number of its owners. `Engine/Handles/Safe` says what it is for a function to keep
--     the invariant of these blocks, with a rule for each way to compose functions. `Engine/Handles/Release`
--     allows for the one owner that is no object while a shared pointer is copied. `Engine/Handles/View`
--     is the specification, a store that gives each handle its value and has no owners, and
--     `Engine/Handles/Clients` are programs of operations on handles, which run on it and on the code.
--   * `Benchmark`: hebench/api_bridge/src/benchmark.cpp; `Benchmark/Defaults` is about the default sets
--     that the constructor of a derived class adds.
--   * `Backend`: the interface that the wrapper leaves to a backend, a record of functions: the virtual
--     functions of descriptions and benchmarks, and `createEngine` and `destroyEngine`.
--   * `Api`: the twenty C functions of hebench/api_bridge/src/main.cpp. Each is a body between `try` and
--     `catch`; `Api/Calls` names them all, `Api/Safe` states the law that a backend has to meet for
--     them to keep the memory sound, and `Api/Runs` is about sequences of calls. `Api/Asks` describes
--     the calls on benchmarks without the memory, and how a client fetches the text of an error;
--     `Api/Discovery`, with `Engine/Listed`, how it finds the benchmarks of an engine, and `Api/Details`
--     how many parameters and default sets one has.
--   * `Example`: api_bridge_example_backend/src, which fills `Backend`, and `Example/Safe` its law.
--     `Example/Session` is a client that takes two matrices through the C API to their product;
--     `Example/Harness` is that client from `initEngine` on; `Example/Misuse` is about stages that get
--     handles of another stage, and `Example/Inverse` about `decode` after `encode`. `Example/Lifecycle` and `Example/Creation` are about its engines and benchmarks.
--   * `Loader`: dynamic_lib_load/src, the table of function pointers and the functions that forward, when
--     a library is loaded (`Loader/Table`) and unloaded (`Loader/Unload`).
--   * `Base`: shared lemmas and library names. `Tests`: concrete inputs.
--
-- A call of the C API runs a body of `Api`, which calls `Engine` or, through a handle's object, the
-- backend; the backend calls back into `Engine/Handles` for its data. Names are those of the code in
-- snake case: `duplicateHandle` with new tags is `duplicate_handle_as`.
--
-- Numbers: pointers, sizes and the bits of 64-bit values are natural numbers; sums of indices in
-- `Params/Generic` wrap at 2^64 as `std::uint64_t` does. Fuel: loops over an index carry the number of
-- rounds that are left, which is the loop's own bound; `decimal` has one more digit of fuel than the
-- value, and a number has no more digits than that.
--
-- Parameters: the backend in `Api`; the dynamic linker in `Loader`; in `Example`, the addition and
-- multiplication of `double`, the sizes of classes and the numbers of the generated version headers.
-- The texts of the standard library's own exceptions are parameters too.
--
-- Not modelled: the generated headers, the build scripts, the loader's progress texts on the console,
-- `compiler_test`, and running out of memory.
pub mod Base
pub mod Text
pub mod Types
pub mod Memory
pub mod Utilities
pub mod Params
pub mod Backend
pub mod Engine
pub mod Benchmark
pub mod Api
pub mod Example
pub mod Loader
pub mod Tests
