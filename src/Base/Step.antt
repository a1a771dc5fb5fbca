-- ===== src/Base/Step.antt =====
-- One binary digit of the native `&` and `|`, and induction on halves.
use Prim.Native.Nat.{
  ℕ, zero, suc, ◌+◌, ◌*◌, ◌/◌, ◌%◌, ◌≤◌, min, max, bit_and, bit_or, digits, bit_and-bitwise,
  bit_or-bitwise, bitwise,
}
use mathlib.Core.Path.{◌≡◌, refl, ap, ◌∙◌}
use mathlib.Core.Logic.{inl, inr}
use native.Mathlib.Omega.{arith}
use api_bridge.Base.Tests.{Bool-cases, ◌==◌}

-- Induction from `n / 2` to `n`.
halves_fuel {ℓ} :
    (P : ℕ → Type ℓ) → P 0 → ((n : ℕ) → P (suc n / 2) → P (suc n)) → (k n : ℕ) → n ≤ k → P n
halves_fuel P z s k zero h = z
halves_fuel P z s zero (suc n) h = absurd (omega arith)
halves_fuel P z s (suc k) (suc n) h = s n (halves_fuel P z s k (suc n / 2) (omega arith))

pub halves {ℓ} : (P : ℕ → Type ℓ) → P 0 → ((n : ℕ) → P (suc n / 2) → P (suc n)) → (n : ℕ) → P n
halves P z s n = halves_fuel P z s n n (omega arith)

module _ (last : ℕ → ℕ) (digit : ℕ → ℕ → ℕ) where
  -- One more round of fuel than the number needs changes nothing, and so do many.
  spare_round :
      (fuel x y : ℕ) → x ≤ fuel → digits last digit (suc fuel) x y ≡ digits last digit fuel x y
  spare_round fuel zero y le = no_digits fuel
    where
      no_digits : (k : ℕ) → digits last digit (suc k) 0 y ≡ digits last digit k 0 y
      no_digits zero = refl
      no_digits (suc k) = refl
  spare_round zero (suc x) y le = absurd (omega arith)
  spare_round (suc fuel) (suc x) y le =
      let half = spare_round fuel (suc x / 2) (y / 2) (omega arith) in omega (arith, half)

  spare_rounds :
      (more fuel x y : ℕ)
      → x ≤ fuel
      → fuel ≤ more
      → digits last digit more x y ≡ digits last digit fuel x y
  spare_rounds zero fuel x y le below =
      let none_left : 0 ≡ fuel = omega arith in ap (λ (k : ℕ). digits last digit k x y) none_left
  spare_rounds (suc more) fuel x y le below = elim (Bool-cases (fuel == suc more)) [
    | inl same ↦ let e : suc more ≡ fuel = ground arith in ap (λ (k : ℕ). digits last digit k x y) e
    | inr apart ↦ spare_round more x y (ground arith) ∙ spare_rounds more fuel x y le (ground arith)
  ]

  lowest_digit :
      (x y : ℕ)
      → bitwise last digit (suc x) y
        ≡ bitwise last digit (suc x / 2) (y / 2) * 2 + digit (suc x % 2) (y % 2)
  lowest_digit x y =
      let rounds = spare_rounds x (suc x / 2) (suc x / 2) (y / 2) (omega arith) (omega arith) in
      omega (arith, rounds)

pub zero-bit_and : (y : ℕ) → bit_and 0 y ≡ 0
zero-bit_and y = simp bit_and-bitwise (omega arith)

pub zero-bit_or : (y : ℕ) → bit_or 0 y ≡ y
zero-bit_or y = simp bit_or-bitwise (omega arith)

-- The last digit of `&` is the smaller of the two, that of `|` the larger.
pub bit_and_step : (x y : ℕ) → bit_and x y ≡ bit_and (x / 2) (y / 2) * 2 + min (x % 2) (y % 2)
bit_and_step zero y = let half = zero-bit_and (y / 2) in omega (arith, zero-bit_and y, half)
bit_and_step (suc x) y = let both = lowest_digit (λ y. 0) min x y in simp bit_and-bitwise both

pub bit_or_step : (x y : ℕ) → bit_or x y ≡ bit_or (x / 2) (y / 2) * 2 + max (x % 2) (y % 2)
bit_or_step zero y = let half = zero-bit_or (y / 2) in omega (arith, zero-bit_or y, half)
bit_or_step (suc x) y = let both = lowest_digit (λ y. y) max x y in simp bit_or-bitwise both
