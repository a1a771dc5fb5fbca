-- ===== src/Text.antt =====
-- Text as the bytes of a C++ string, decimal numbers as `std::to_string` writes them, and the
-- error messages of hebench/api_bridge/src/error_handling.cpp.
pub mod Message
pub mod Header
pub mod Decimal
use Prim.Native.Char.{code}
use Prim.Native.String.{String}
use api_bridge.Base.{
  ℕ, zero, suc, ◌+◌, ◌/◌, ◌%◌, List, [], ◌∷◌, ◌++◌, ltb, Bool, true, false, if◌then◌else◌,
}

abbrev pub Text : Type 0
Text = List ℕ

-- The bytes of a literal. It stays shut, so that proofs treat a literal as an unknown text.
unfoldable pub codes : String → Text
codes String.[] = []
codes (String.◌∷◌ c s) = code c ∷ codes s

abbrev pub is_empty {ℓ} : {A : Type ℓ} → List A → Bool
is_empty [] = true
is_empty (x ∷ xs) = false

-- Decimal digits, with fuel for the number of digits left.
unfoldable pub decimal : ℕ → ℕ → Text
decimal zero n = []
decimal (suc fuel) n =
    let rest = decimal fuel (n / 10) in
    if ltb n 10 then (n + 48) ∷ [] else rest ++ (n % 10 + 48) ∷ []

-- `std::to_string` of an unsigned number: a number has at most as many digits as its value plus 1.
unfoldable pub to_string : ℕ → Text
unfolding decimal
to_string n = decimal (suc n) n
