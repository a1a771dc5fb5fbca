-- ===== src/Text/Message.antt =====
-- `HEBenchError::generateMessage` of hebench/api_bridge/src/error_handling.cpp.
use api_bridge.Base.{[], ◌++◌, Bool, true, false, not, ◌||◌, if◌then◌else◌}
use api_bridge.Base.Int.{ℤ, pos, negsuc}
use api_bridge.Text.{Text, codes, is_empty, to_string}

-- `line_no >= 0`
abbrev pub is_nonneg : ℤ → Bool
is_nonneg (pos n) = true
is_nonneg (negsuc n) = false

-- `ss << line_no << ":"` under its test.
abbrev pub line_part : ℤ → Text
line_part (pos n) = to_string n ++ codes ":"
line_part (negsuc n) = []

unfoldable pub generate_message : Text → Text → Text → Text → ℤ → Text
generate_message message function container filename line_no =
    let bheader =
      not (is_empty filename)
      || not (is_empty container)
      || not (is_empty function)
      || is_nonneg line_no in
    (if is_empty filename then [] else filename ++ codes ":")
    ++ (line_part line_no
        ++ ((if is_empty container
              then []
              else container ++ (if is_empty function then [] else codes "::"))
            ++ ((if is_empty function then [] else function ++ codes "()")
                ++ (if is_empty message
                    then []
                    else (if bheader then codes ": " else []) ++ message))))
