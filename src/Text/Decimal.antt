-- ===== src/Text/Decimal.antt =====
-- The line number in a message of hebench/api_bridge/src/error_handling.cpp: its digits are
-- complete, and they are read back as the number.
use api_bridge.Base.{
  ℕ, zero, suc, ◌+◌, ◌*◌, ◌-◌, ◌/◌, ◌%◌, ◌≤◌, ◌<◌, ◌≡◌, refl, ap, ◌∙◌, arith, [], ◌∷◌, ◌++◌, ltb,
  Bool-cases, inl, inr,
}
use api_bridge.Base.Int.{pos}
use api_bridge.Text.{Text, codes, decimal, to_string}
use api_bridge.Text.Message.{line_part}

-- The value of digits after a number.
abbrev pub read_from : ℕ → Text → ℕ
read_from acc [] = acc
read_from acc (c ∷ cs) = read_from (acc * 10 + (c - 48)) cs

-- Every byte is a digit.
abbrev pub AreDigits : Text → Type 0
AreDigits [] = Unit {0}
AreDigits (c ∷ cs) = (48 ≤ c) × (c < 58) × AreDigits cs

read_from-append :
    (acc : ℕ) (xs ys : Text) → read_from acc (xs ++ ys) ≡ read_from (read_from acc xs) ys
read_from-append acc [] ys = refl
read_from-append acc (c ∷ cs) ys = read_from-append (acc * 10 + (c - 48)) cs ys

AreDigits-append : (xs : Text) (c : ℕ) → AreDigits xs → c < 10 → AreDigits (xs ++ (c + 48) ∷ [])
AreDigits-append [] c all lt = omega arith
AreDigits-append (x ∷ xs) c (lo, hi, all) lt = (lo, hi, AreDigits-append xs c all lt)

read_from-decimal : (fuel n : ℕ) → n < fuel → read_from 0 (decimal fuel n) ≡ n
unfolding decimal
read_from-decimal zero n lt = elim lt [ ]
read_from-decimal (suc fuel) n lt = elim (Bool-cases (ltb n 10)) [
  | inl small ↦ ground (arith, small)
  | inr large ↦
      let rest : n / 10 < fuel = ground (arith, large) in
      let whole = read_from-append 0 (decimal fuel (n / 10)) ((n % 10 + 48) ∷ []) in
      rw large (whole ∙ omega (arith, read_from-decimal fuel (n / 10) rest))
]

decimal-AreDigits : (fuel n : ℕ) → AreDigits (decimal fuel n)
unfolding decimal
decimal-AreDigits zero n = tt
decimal-AreDigits (suc fuel) n = elim (Bool-cases (ltb n 10)) [
  | inl small ↦ rw small (ground (arith, small))
  | inr large ↦ rw large (
      AreDigits-append (decimal fuel (n / 10)) (n % 10) (decimal-AreDigits fuel (n / 10))
        (omega arith))
]

-- Any fuel above the number gives the same digits.
decimal_enough : (fuel other n : ℕ) → n < fuel → n < other → decimal fuel n ≡ decimal other n
unfolding decimal
decimal_enough zero other n lt more = elim lt [ ]
decimal_enough (suc fuel) zero n lt more = elim more [ ]
decimal_enough (suc fuel) (suc other) n lt more = elim (Bool-cases (ltb n 10)) [
  | inl small ↦ rw small refl
  | inr large ↦ rw large (
      ap (λ digits. digits ++ (n % 10 + 48) ∷ [])
        (decimal_enough fuel other (n / 10) (ground (arith, large)) (ground (arith, large))))
]

-- The digits of a line number are written to the last, whatever the fuel above the number; they are
-- digits, with ":" behind them, and are read back as the number.
pub line_part-reads :
    (n fuel : ℕ)
    → n < fuel
    → (line_part (pos n) ≡ decimal fuel n ++ codes ":")
      × AreDigits (decimal fuel n)
      × (read_from 0 (decimal fuel n) ≡ n)
unfolding to_string
line_part-reads n fuel lt = (
  ap (λ digits. digits ++ codes ":") (decimal_enough (suc n) fuel n (omega arith) lt),
  decimal-AreDigits fuel n,
  read_from-decimal fuel n lt,
)
