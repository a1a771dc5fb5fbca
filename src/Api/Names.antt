-- ===== src/Api/Names.antt =====
-- The functions of hebench/api_bridge/src/main.cpp that copy a text to the caller and return the
-- size that it takes.
use api_bridge.Base.{ℕ, not, Option, none, some}
use api_bridge.Text.{Text, codes}
use api_bridge.Types.{Address, ErrorCode, Handle}
use api_bridge.Types.Tag
use api_bridge.Memory.{
  standard, invalid_argument, runtime_error, M, ◌>>=◌, ◌>>◌, pure, throw, throw_if, deref, lookup,
  as_engine,
}
use api_bridge.Backend.{Backend}
use api_bridge.Utilities.{copy_string}
use api_bridge.Engine.{get_error_desc, get_last_error_desc, scheme_name, security_name}
use api_bridge.Engine.Benchmarks.{
  get_benchmark_description_ex as engine_get_benchmark_description_ex,
}
use api_bridge.Api.{check_handle_bits, returns_size}

module _ {P : Type 0} where
  abbrev pub require_engine : Handle → M P (Unit {0})
  require_engine h_engine =
      throw_if (not (check_handle_bits h_engine Tag.base_engine))
        (standard invalid_argument (codes "h_engine"))

  -- The iterator's test against `end()`.
  abbrev pub found : Option Text → Text → M P Text
  found none missing = throw (standard runtime_error missing)
  found (some text) missing = pure text

module _ {P : Type 0} (b : Backend P) where
  unfoldable pub get_scheme_name : Handle → ℕ → Address → ℕ → M P ℕ
  get_scheme_name h_engine s p_name size = returns_size b do
    require_engine h_engine
    e ← deref as_engine h_engine.p
    name ← found (lookup s (scheme_name e)) (codes "Scheme not found.")
    copy_string p_name size name

  unfoldable pub get_scheme_security_name : Handle → ℕ → ℕ → Address → ℕ → M P ℕ
  get_scheme_security_name h_engine s sec p_name size = returns_size b do
    require_engine h_engine
    e ← deref as_engine h_engine.p
    name ← found (lookup sec (security_name e)) (codes "Security not found.")
    copy_string p_name size name

  unfoldable pub get_benchmark_description_ex : Handle → Handle → Address → Address → ℕ → M P ℕ
  get_benchmark_description_ex h_engine h_bench_desc p_w_params p_description size =
      returns_size b do
        require_engine h_engine
        text ← engine_get_benchmark_description_ex b h_engine.p h_bench_desc p_w_params
        copy_string p_description size text

  unfoldable pub get_error_description : Handle → ErrorCode → Address → ℕ → M P ℕ
  get_error_description h_engine code p_description size =
      returns_size b do text ← get_error_desc code; copy_string p_description size text

  unfoldable pub get_last_error_description : Handle → Address → ℕ → M P ℕ
  get_last_error_description h_engine p_description size =
      returns_size b do text ← get_last_error_desc; copy_string p_description size text
