-- ===== src/Utilities.antt =====
-- `Utilities::copyString` of hebench/api_bridge/src/utilities.cpp.
pub mod Laws
use api_bridge.Base.{
  ℕ, ◌+◌, ◌-◌, min, Bool, not, ◌&&◌, Option, none, some, List, ◌++◌, ltb, leb, ◌==◌, if◌then◌else◌,
  length, take, drop, set,
}
use api_bridge.Text.{Text}
use api_bridge.Types.{Address, null}
use api_bridge.Memory.{M, ◌>>=◌, ◌>>◌, pure, when, deref, assign, defined, as_chars, chars}

-- `std::copy_n` into the front of an array that is long enough.
abbrev pub copy_n : ℕ → List ℕ → List ℕ → List ℕ
copy_n n src dst = take n src ++ drop n dst

-- The body of the `if`: what the array `dst` holds afterwards, `none` if it is shorter than what
-- is written.
unfoldable pub write_string : List ℕ → ℕ → Text → Option (List ℕ)
write_string dst size src =
    let min_size = min size (length src + 1) in
    let copied = if ltb 1 min_size then copy_n (min_size - 1) src dst else dst in
    if leb min_size (length dst) then some (set copied (min_size - 1) 0) else none

-- `src.size() + 1` does not wrap: a `std::string` is shorter than 2^63.
unfoldable pub copy_string : {P : Type 0} → Address → ℕ → Text → M P ℕ
copy_string dst size src = do
  when (not (dst == null) && ltb 0 size) do
    buffer ← deref as_chars dst
    written ← defined (write_string buffer size src)
    assign as_chars dst (chars written)
  pure (length src + 1)
