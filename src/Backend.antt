-- ===== src/Backend.antt =====
-- What a backend supplies to the wrapper: the functions that hebench/api_bridge/cpp/engine.hpp
-- declares and leaves to it, and the virtual functions of its descriptions and benchmarks (of
-- hebench/api_bridge/cpp/benchmark.hpp), by the address of the object. A field that stands for the
-- virtual functions of several classes dispatches on the object's `dynamic_type`.
use api_bridge.Base.{ℕ}
use api_bridge.Text.{Text}
use api_bridge.Types.{Address, Handle, BenchmarkDescriptor}
use api_bridge.Memory.{M, Standard}

-- The sizes of the classes, which the compiler fixes.
pub record Sizes : Type 0 where
  pub base_engine : ℕ
  pub benchmark_description : ℕ
  pub benchmark_handle : ℕ

-- `library_what` is the text of an exception that the standard library throws.
pub record Backend (P : Type 0) : Type 0 where
  pub sizes : Sizes
  pub library_what : Standard → Text
  pub create_engine : Address → ℕ → M P Address
  pub destroy_engine : Address → M P (Unit {0})
  pub create_benchmark : Address → Address → Address → M P Address
  pub destroy_benchmark : Address → Address → M P (Unit {0})
  pub get_benchmark_description : Address → Address → M P Text
  pub initialize : Address → BenchmarkDescriptor → M P (Unit {0})
  pub encode : Address → Address → M P Handle
  pub decode : Address → Handle → Address → M P (Unit {0})
  pub encrypt : Address → Handle → M P Handle
  pub decrypt : Address → Handle → M P Handle
  pub load : Address → Address → ℕ → M P Handle
  pub store : Address → Handle → Address → ℕ → M P (Unit {0})
  pub operate : Address → Handle → Address → ℕ → M P Handle
