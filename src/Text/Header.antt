-- ===== src/Text/Header.antt =====
-- How `HEBenchError::generateMessage` of hebench/api_bridge/src/error_handling.cpp joins a message to
-- the place it comes from.
use api_bridge.Base.{
  ◌≡◌, ◌≢◌, refl, arith, ◌⊎◌, [], ◌∷◌, ◌++◌, ℕ, append_assoc, append-nil, if◌then◌else◌,
}
use api_bridge.Base.Int.{ℤ, pos, negsuc}
use api_bridge.Text.{Text, codes, is_empty}
use api_bridge.Text.Message.{generate_message, line_part}

-- Some part of the place is given: a file, a class, a function, or a line that is not negative.
abbrev pub HasPlace : Text → Text → Text → ℤ → Type 0
HasPlace function container filename (pos n) = Unit {0}
HasPlace function container filename (negsuc n) =
    (filename ≢ []) ⊎ ((container ≢ []) ⊎ (function ≢ []))

split : (a b c d x : Text) → a ++ (b ++ (c ++ (d ++ x))) ≡ (a ++ (b ++ (c ++ (d ++ [])))) ++ x
split a b c d x = simp (append_assoc, append-nil) refl

-- If some part of the place is given, a message that is not empty follows the text for the place,
-- with ": " between them.
pub generate_message-joins :
    (message function container filename : Text) (line_no : ℤ)
    → message ≢ []
    → HasPlace function container filename line_no
    → generate_message message function container filename line_no
      ≡ generate_message [] function container filename line_no ++ (codes ": " ++ message)
unfolding generate_message
generate_message-joins message function container filename (pos n) ne place = ground (
  arith,
  split (if is_empty filename then [] else filename ++ codes ":") (line_part (pos n))
      (if is_empty container
        then []
        else container ++ (if is_empty function then [] else codes "::"))
      (if is_empty function then [] else function ++ codes "()") (codes ": " ++ message),
)
generate_message-joins message function container filename (negsuc n) ne place = ground (
  arith,
  split (if is_empty filename then [] else filename ++ codes ":") []
      (if is_empty container
        then []
        else container ++ (if is_empty function then [] else codes "::"))
      (if is_empty function then [] else function ++ codes "()") (codes ": " ++ message),
)

-- With no part of the place, the message stands alone.
pub generate_message-alone :
    (message : Text) (n : ℕ) → generate_message message [] [] [] (negsuc n) ≡ message
unfolding generate_message
generate_message-alone [] n = refl
generate_message-alone (c ∷ message) n = refl
