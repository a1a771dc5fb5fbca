-- ===== src/Engine/Tables.antt =====
-- The table of error codes that the engines share, of hebench/api_bridge/src/engine.cpp.
use api_bridge.Base.{◌≡◌, arith, none, some, ◌==◌, if◌then◌else◌}
use api_bridge.Text.{Text, codes}
use api_bridge.Types.{ErrorCode, ecode_critical_error}
use api_bridge.Memory.{World, Fails, returns, lookup, insert, lookup-insert}
use api_bridge.Engine.{get_error_desc, set_last_error, set_last_error_text, add_error_code}

module _ {P : Type 0} where
  -- A new error code is added to the table with its text, the other codes keep theirs, and setting
  -- it as the last error then leaves that text as the last description.
  pub set_last_error-add_error_code :
      (code : ErrorCode) (text : Text) (w : World P)
      → lookup code w.map_error_desc ≡ none
      → (v : World P) × (add_error_code code text w ≡ returns tt v)
        × ((other : ErrorCode)
            → lookup other v.map_error_desc
              ≡ (if other == code then some text else lookup other w.map_error_desc))
        × (set_last_error code v
            ≡ returns tt (record v { last_error = code; last_error_description = text }))
  unfolding add_error_code set_last_error get_error_desc set_last_error_text
  set_last_error-add_error_code code text w new = (
    record w { map_error_desc = insert code text w.map_error_desc },
    ground arith,
    λ other. ground (arith, lookup-insert code other text w.map_error_desc),
    ground (arith, lookup-insert code code text w.map_error_desc),
  )

  -- An error code that is in the table cannot be added again: the call fails with the critical
  -- error, and the first text stays.
  pub add_error_code-twice :
      (code : ErrorCode) (text first : Text) (w : World P)
      → lookup code w.map_error_desc ≡ some first
      → Fails ecode_critical_error w (add_error_code code text w)
  unfolding add_error_code
  add_error_code-twice code text first w known = ground arith

  -- A code that is not in the table is described as unknown.
  pub get_error_desc-unknown :
      (code : ErrorCode) (w : World P)
      → lookup code w.map_error_desc ≡ none
      → get_error_desc code w ≡ returns (codes "Unknown Error") w
  unfolding get_error_desc
  get_error_desc-unknown code w new = ground arith
