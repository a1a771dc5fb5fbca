-- ===== src/Base/Bits.antt =====
-- The laws of `&` and `|` at every width, for the tags of handles.
use Prim.Native.Nat.{ℕ, suc, ◌/◌, ◌%◌, min, max, bit_and, bit_or}
use mathlib.Core.Path.{◌≡◌, refl, sym, ◌∙◌}
use native.Mathlib.Omega.{arith}
use api_bridge.Base.Step.{halves, zero-bit_and, zero-bit_or, bit_and_step, bit_or_step}

pub bit_and_half : (a b : ℕ) → bit_and a b / 2 ≡ bit_and (a / 2) (b / 2)
bit_and_half a b = omega (arith, bit_and_step a b)

pub bit_and_odd : (a b : ℕ) → bit_and a b % 2 ≡ min (a % 2) (b % 2)
bit_and_odd a b = omega (arith, bit_and_step a b)

pub bit_or_half : (a b : ℕ) → bit_or a b / 2 ≡ bit_or (a / 2) (b / 2)
bit_or_half a b = omega (arith, bit_or_step a b)

pub bit_or_odd : (a b : ℕ) → bit_or a b % 2 ≡ max (a % 2) (b % 2)
bit_or_odd a b = omega (arith, bit_or_step a b)

ruleset half_laws = (bit_and_half, bit_or_half)

by_halves : (x y : ℕ) → x / 2 ≡ y / 2 → x % 2 ≡ y % 2 → x ≡ y
by_halves x y h o = omega arith

pub bit_and-zero : (a : ℕ) → bit_and a 0 ≡ 0
bit_and-zero =
    halves (λ a. bit_and a 0 ≡ 0) refl (λ n ih. omega (arith, bit_and_step (suc n) 0, ih))

pub bit_or-zero : (a : ℕ) → bit_or a 0 ≡ a
bit_or-zero = halves (λ a. bit_or a 0 ≡ a) refl (λ n ih. omega (arith, bit_or_step (suc n) 0, ih))

pub bit_and_comm : (a b : ℕ) → bit_and a b ≡ bit_and b a
bit_and_comm =
    halves (λ a. (b : ℕ) → bit_and a b ≡ bit_and b a) (λ b. zero-bit_and b ∙ sym (bit_and-zero b))
      (λ n ih b. omega (arith, bit_and_step (suc n) b, bit_and_step b (suc n), ih (b / 2)))

pub bit_and_assoc : (a b c : ℕ) → bit_and (bit_and a b) c ≡ bit_and a (bit_and b c)
bit_and_assoc =
    halves (λ a. (b c : ℕ) → bit_and (bit_and a b) c ≡ bit_and a (bit_and b c))
      (λ b c. simp zero-bit_and)
      (λ n ih b c. by_halves _ _ (simp half_laws (ih (b / 2) (c / 2))) (
        omega (
          arith,
          bit_and_odd (bit_and (suc n) b) c,
          bit_and_odd (suc n) b,
          bit_and_odd (suc n) (bit_and b c),
          bit_and_odd b c,
        )))

pub bit_and-bit_or : (a b c : ℕ) → bit_and (bit_or a b) c ≡ bit_or (bit_and a c) (bit_and b c)
bit_and-bit_or a b c =
    halves (λ c. (a b : ℕ) → bit_and (bit_or a b) c ≡ bit_or (bit_and a c) (bit_and b c))
      (λ a b. simp (bit_and-zero, bit_or-zero))
      (λ n ih a b. by_halves _ _ (simp half_laws (ih (a / 2) (b / 2))) (
        omega (
          arith,
          bit_and_odd (bit_or a b) (suc n),
          bit_or_odd a b,
          bit_and_odd a (suc n),
          bit_or_odd (bit_and a (suc n)) (bit_and b (suc n)),
          bit_and_odd b (suc n),
        )))
      c a b

-- The bits that went in are found again.
pub bit_and-bit_or_left : (a b : ℕ) → bit_and (bit_or a b) a ≡ a
bit_and-bit_or_left =
    halves (λ a. (b : ℕ) → bit_and (bit_or a b) a ≡ a) (λ b. bit_and-zero _)
      (λ n ih b.
        by_halves _ _ (simp half_laws (ih (b / 2)))
          (omega (arith, bit_and_odd (bit_or (suc n) b) (suc n), bit_or_odd (suc n) b)))

pub bit_or_comm : (a b : ℕ) → bit_or a b ≡ bit_or b a
bit_or_comm =
    halves (λ a. (b : ℕ) → bit_or a b ≡ bit_or b a) (λ b. zero-bit_or b ∙ sym (bit_or-zero b))
      (λ n ih b. omega (arith, bit_or_step (suc n) b, bit_or_step b (suc n), ih (b / 2)))

pub bit_and-bit_or_right : (a b : ℕ) → bit_and (bit_or a b) b ≡ b
bit_and-bit_or_right a b = rw (bit_or_comm a b) (bit_and-bit_or_left b a)

-- A mask that is clear leaves every part of it clear.
pub bit_and_part : (a m p : ℕ) → bit_and m p ≡ p → bit_and a m ≡ 0 → bit_and a p ≡ 0
bit_and_part a m p sub clear = rw (← sub) (rw (← bit_and_assoc a m p) (rw clear (zero-bit_and p)))
