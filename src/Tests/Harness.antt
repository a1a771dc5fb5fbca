-- ===== src/Tests/Harness.antt =====
-- A whole run of the harness on the example backend.
use api_bridge.Base.{ℕ, ◌<◌, ◌≢◌, refl, arith, [], ◌∷◌}
use api_bridge.Types.{Address, null_handle}
use api_bridge.Example.Workload.{example_descriptor}
use api_bridge.Example.Stages.{one_value}
use api_bridge.Example.Session.Delivers.{IsCell}
use api_bridge.Example.Harness.{Role, Desk, harness}
use api_bridge.Example.Harness.Around.{Around}
use api_bridge.Example.Harness.Whole.{Finishes, harness-Finishes}
use api_bridge.Tests.Start.{both_one_value}
use api_bridge.Tests.Calls.{whole_numbers}
use api_bridge.Tests.Lifecycles.{dims, dims-Fits}
use api_bridge.Tests.Sessions.{
  constant, constant-IsSquare, places, memory, memory-IsSound, memory-IsCell, memory_target,
  memory_samples, cell-apart,
}

abbrev own : Role → Address
own Role.engine = 21
own Role.description = 22
own Role.benchmark = 23

abbrev desk : Desk
desk = record { own = own; p_params = 24; p_bench_desc = 26; places = places }

own-IsCell : (k : Role) → IsCell (own k) memory
own-IsCell Role.engine = (null_handle, [], refl)
own-IsCell Role.description = (null_handle, [], refl)
own-IsCell Role.benchmark = (null_handle, [], refl)

own-above : (k : Role) (p : ℕ) → p < 21 → p ≢ own k
own-above Role.engine p lt = omega arith
own-above Role.description p lt = omega arith
own-above Role.benchmark p lt = omega arith

memory-Around : Around desk (constant 2) (constant 3) memory
memory-Around = record {
  own = own-IsCell;
  cells = memory-IsCell;
  bench_params = record { params = 25; count = 3 };
  more = [];
  at_params = refl;
  values = dims;
  at_values = refl;
  enough = omega arith;
  fits = dims-Fits;
  bench_desc = example_descriptor;
  at_bench_desc = refl;
  array = one_value ∷ one_value ∷ [];
  at_indexers = refl;
  good = both_one_value;
  samples = memory_samples;
  target = memory_target;
  at_buffer = refl;
  apart = cell-apart;
  free_target = λ k. own-above k 19 (omega arith);
  free0 = λ k. own-above k 6 (omega arith);
  free1 = λ k. own-above k 7 (omega arith);
  separate = omega arith;
}

harness-Finishes_example :
    Finishes whole_numbers desk
      (constant 2)
      (constant 3)
      (constant-IsSquare 2)
      (constant-IsSquare 3)
      (harness whole_numbers desk memory)
harness-Finishes_example =
    harness-Finishes whole_numbers desk (constant 2) (constant 3) (constant-IsSquare 2)
      (constant-IsSquare 3) memory (refl, refl, omega arith) memory-IsSound memory-Around
