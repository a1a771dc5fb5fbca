-- ===== src/Example/Harness.antt =====
-- The test harness on the example backend, from `initEngine` to the decoded result: the calls of
-- hebench/api_bridge/src/main.cpp that start an engine, subscribe to its benchmark, create and
-- initialise it, and then the session of `Example/Session`.
pub mod Around
pub mod Starts
pub mod Whole
use api_bridge.Types.{Address, ErrorCode, null}
use api_bridge.Memory.{M}
use api_bridge.Api.Engines
use api_bridge.Api.Benchmarks
use api_bridge.Example.{Platform}
use api_bridge.Example.Benchmark.{Payload}
use api_bridge.Example.Backend.{example}
use api_bridge.Example.Session.{Places, ◌then◌, with_handle, session}

-- The harness's cells for the handles of the engine, its description and its benchmark.
pub data Role : Type 0 where
  engine description benchmark : Role

-- Where the harness has its arguments and results, with those of the session.
pub record Desk : Type 0 where
  pub own : Role → Address
  pub p_params : Address
  pub p_bench_desc : Address
  pub places : Places

module _ (platform : Platform) (d : Desk) where
  abbrev pub initializing : M Payload ErrorCode
  initializing = with_handle (d.own Role.benchmark) λ h.
      Benchmarks.init_benchmark (example platform) h d.p_bench_desc
      then session platform (record (d.places) { h_benchmark = h })

  abbrev pub creating : M Payload ErrorCode
  creating = with_handle (d.own Role.engine) λ h_engine.
      with_handle (d.own Role.description) λ h_bench_desc.
        Engines.create_benchmark (example platform) h_engine h_bench_desc d.p_params
          (d.own Role.benchmark)
        then initializing

  -- The engine has one benchmark, and the harness asks for one.
  abbrev pub subscribing : M Payload ErrorCode
  subscribing = with_handle (d.own Role.engine) λ h_engine.
      Engines.subscribe_benchmarks (example platform) h_engine (d.own Role.description) 1
      then creating

  abbrev pub harness : M Payload ErrorCode
  harness = Engines.init_engine (example platform) (d.own Role.engine) null 0 then subscribing
