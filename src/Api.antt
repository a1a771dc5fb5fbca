-- ===== src/Api.antt =====
-- The C functions of hebench/api_bridge/src/main.cpp. This module has what they share: the tests
-- of a handle's tag, and the `try` and `catch` around every body. The children are the functions,
-- and a type of calls that names them all.
pub mod Engines
pub mod Benchmarks
pub mod Names
pub mod Calls
pub mod Laws
pub mod Guards
pub mod Destroy
pub mod Texts
pub mod Safe
pub mod Runs
pub mod Asks
pub mod Details
pub mod Discovery
use Prim.Native.String.{String}
use api_bridge.Base.{ℕ, Bool, not, ◌&&◌, ◌==◌, List, [], ◌∷◌, set, bit_and}
use api_bridge.Base.Int.{pos}
use api_bridge.Text.{Text, codes}
use api_bridge.Text.Message.{generate_message}
use api_bridge.Types.{Address, null, ErrorCode, ecode_success, ecode_critical_error, Handle}
use api_bridge.Types.Tag
use api_bridge.Memory.{
  Exception, hebench_error, standard, library, unmatched, Standard, World, Outcome, returns, throws,
  undefined, M, ◌>>=◌, ◌>>◌, pure, throw_if, deref, assign, index, as_handles, handles,
}
use api_bridge.Backend.{Backend}
use api_bridge.Engine.{set_last_error_text}

-- `HEBERROR_MSG` at a line of main.cpp, with the code of a critical error.
abbrev pub api_error : String → ℕ → String → Exception
api_error function line message =
    hebench_error
      (generate_message (codes message) (codes function) []
        (codes "hebench/api_bridge/src/main.cpp") (pos line))
      ecode_critical_error

unfoldable pub check_handle_equals : Handle → ℕ → Bool
check_handle_equals h tag = not (h.p == null) && (h.tag == tag)

unfoldable pub check_handle_bits : Handle → ℕ → Bool
check_handle_bits h tag = not (h.p == null) && (bit_and h.tag tag == tag)

module _ {P : Type 0} where
  abbrev pub require : Bool → String → ℕ → String → M P (Unit {0})
  require holds function line message = throw_if (not holds) (api_error function line message)

  -- `*h = value` for a pointer to a handle.
  abbrev pub assign_handle : Address → Handle → M P (Unit {0})
  assign_handle p value = do
    array ← deref as_handles p
    index array 0
    assign as_handles p (handles (set array 0 value))

  -- What an exception object's `what()` says.
  abbrev pub what : Backend P → Exception → Text
  what b (hebench_error text code) = text
  what b (standard kind text) = text
  what b (library kind) = b.library_what kind
  what b unmatched = []

  -- The three `catch` clauses of a function that returns an error code.
  unfoldable pub catch_code : Backend P → Exception → M P ErrorCode
  unfolding set_last_error_text
  catch_code b (hebench_error text code) = do set_last_error_text code text; pure code
  catch_code b (standard kind text) = do
    set_last_error_text ecode_critical_error text
    pure ecode_critical_error
  catch_code b (library kind) = do
    set_last_error_text ecode_critical_error (b.library_what kind)
    pure ecode_critical_error
  catch_code b unmatched = pure ecode_critical_error

  -- The `catch` clauses of a function that returns a size, which is 0 until the body sets it.
  unfoldable pub catch_size : Backend P → Exception → M P ℕ
  unfolding set_last_error_text
  catch_size b (hebench_error text code) = do set_last_error_text code text; pure 0
  catch_size b (standard kind text) = do
    set_last_error_text ecode_critical_error text
    pure ecode_critical_error
  catch_size b (library kind) = do
    set_last_error_text ecode_critical_error (b.library_what kind)
    pure ecode_critical_error
  catch_size b unmatched = pure 0

  abbrev pub on_exception : {A : Type 0} → M P A → (Exception → M P A) → M P A
  on_exception body handler w = elim (body w) [
    | returns a v ↦ returns a v
    | throws e v ↦ handler e v
    | undefined ↦ undefined
  ]

  -- A function that returns an error code: its body, between `try` and `catch`.
  abbrev pub returns_code : Backend P → M P (Unit {0}) → M P ErrorCode
  returns_code b body = on_exception (do body; pure ecode_success) (catch_code b)

  -- A function that returns a size.
  abbrev pub returns_size : Backend P → M P ℕ → M P ℕ
  returns_size b body = on_exception body (catch_size b)
