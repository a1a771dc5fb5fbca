-- ===== src/Example.antt =====
-- The example backend of api_bridge_example_backend/: one workload, the product of two matrices
-- of `double`, in plain text. This module is what its files share; `Backend` fills the interface.
pub mod Matrix
pub mod Workload
pub mod Description
pub mod Benchmark
pub mod Engine
pub mod Backend
pub mod Product
pub mod Samples
pub mod Stages
pub mod Transfer
pub mod Accepts
pub mod Session
pub mod Harness
pub mod Misuse
pub mod Inverse
pub mod Lifecycle
pub mod Creation
pub mod Safe
use Prim.Native.String.{String}
use api_bridge.Base.{ℕ, Bool, List}
use api_bridge.Text.{Text, codes}
use api_bridge.Types.{ErrorCode}
use api_bridge.Memory.{Exception, M, throw, returns, throws, undefined, Standard}
use api_bridge.Params.{Result, ok, err}
use api_bridge.Backend.{Sizes}
use api_bridge.Engine.{class_error}

-- Numbers that the build generates into `version.h` and `ex_version.h`.
pub record Versions : Type 0 where
  pub major : ℕ
  pub minor : ℕ
  pub revision : ℕ
  pub needed_major : ℕ
  pub needed_minor : ℕ
  pub needed_revision : ℕ

-- What the compiler and the machine supply: the arithmetic of `double` on bit patterns, and sizes.
pub record Platform : Type 0 where
  pub double_add : ℕ → ℕ → ℕ
  pub double_mul : ℕ → ℕ → ℕ
  pub sizeof_vector : ℕ
  pub sizeof_matrix : ℕ
  pub sizes : Sizes
  pub versions : Versions
  pub library_what : Standard → Text

-- The dynamic type of the backend's classes.
abbrev pub example_type : ℕ
example_type = 1

abbrev pub example_error : String → String → ℕ → Text → ErrorCode → Exception
example_error = class_error "api_bridge_example_backend/src/ex_benchmark.cpp"

-- A call of the parameter wrappers, whose exceptions pass through.
abbrev pub lift : {P A : Type 0} → Result A → M P A
lift (ok a) w = returns a w
lift (err e) w = throws e w
lift Result.undefined w = undefined
