-- ===== src/Example/Backend.antt =====
-- The example fills the interface that the wrapper leaves to a backend.
use api_bridge.Backend.{Backend}
use api_bridge.Example.{Platform}
use api_bridge.Example.Description
use api_bridge.Example.Benchmark
use api_bridge.Example.Benchmark.{Payload}
use api_bridge.Example.Engine

abbrev pub example : Platform → Backend Payload
example platform = record {
  sizes = platform.sizes;
  library_what = platform.library_what;
  create_engine = Engine.create_engine platform.versions;
  destroy_engine = Engine.destroy_engine;
  create_benchmark = Description.create_benchmark;
  destroy_benchmark = Description.destroy_benchmark;
  get_benchmark_description = Description.get_benchmark_description;
  initialize = Benchmark.initialize;
  encode = Benchmark.encode platform;
  decode = Benchmark.decode;
  encrypt = Benchmark.encrypt platform;
  decrypt = Benchmark.decrypt platform;
  load = Benchmark.load;
  store = Benchmark.store;
  operate = Benchmark.operate platform;
}
