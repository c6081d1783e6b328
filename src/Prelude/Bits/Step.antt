-- ===== src/Prelude/Bits/Step.antt =====
-- One step of the native bit operations: the lowest digit, and the halves.
use Prim.Native.Nat.{
  ℕ, zero, suc, ◌+◌, ◌-◌, ◌*◌, ◌/◌, ◌%◌, ◌≤◌, ◌<◌, min, max, digits, bit_and, bit_or, bit_xor,
  differ, bit_and-bitwise, bit_or-bitwise, bit_xor-bitwise,
}
use mathlib.Core.Path.{◌≡◌, refl, ◌∙◌}
use native.Mathlib.Omega.{arith}

-- A round of fuel more than the first number needs changes nothing.
module _ (tail_of : ℕ → ℕ) (digit : ℕ → ℕ → ℕ) where
  spare_round : (n x y : ℕ) → x ≤ n → digits tail_of digit (suc n) x y ≡ digits tail_of digit n x y
  spare_round n zero y h = by_fuel n
    where
      by_fuel : (n : ℕ) → digits tail_of digit (suc n) 0 y ≡ digits tail_of digit n 0 y
      by_fuel zero = refl
      by_fuel (suc n) = refl
  spare_round zero (suc x) y h = absurd (omega arith)
  spare_round (suc n) (suc x) y h = omega (arith, spare_round n (suc x / 2) (y / 2) (omega arith))

  spare_fuel :
      (spare n x y : ℕ) → n ≡ x + spare → digits tail_of digit n x y ≡ digits tail_of digit x x y
  spare_fuel zero n x y e = let e' : n ≡ x = omega arith in rw e'
  spare_fuel (suc spare) zero x y e = absurd (omega arith)
  spare_fuel (suc spare) (suc n) x y e =
      spare_round n x y (omega arith) ∙ spare_fuel spare n x y (omega arith)

  halved_fuel :
      (x y : ℕ)
      → digits tail_of digit x (suc x / 2) y ≡ digits tail_of digit (suc x / 2) (suc x / 2) y
  halved_fuel x y = spare_fuel (x - suc x / 2) x (suc x / 2) y (omega arith)

pub bit_or-digit : (x y : ℕ) → bit_or x y ≡ max (x % 2) (y % 2) + 2 * bit_or (x / 2) (y / 2)
bit_or-digit zero y = simp bit_or-bitwise (omega arith)
bit_or-digit (suc x) y = simp bit_or-bitwise (omega (arith, halved_fuel (λ t. t) max x (y / 2)))

pub bit_and-digit : (x y : ℕ) → bit_and x y ≡ min (x % 2) (y % 2) + 2 * bit_and (x / 2) (y / 2)
bit_and-digit zero y = simp bit_and-bitwise (omega arith)
bit_and-digit (suc x) y = simp bit_and-bitwise (omega (arith, halved_fuel (λ t. 0) min x (y / 2)))

differ_lem : (x y : ℕ) → x < 2 → y < 2 → differ x y ≡ (x + y) % 2
differ_lem zero y h k = omega arith
differ_lem (suc zero) zero h k = refl
differ_lem (suc zero) (suc y) h k = let e : y ≡ 0 = omega arith in rw e
differ_lem (suc (suc x)) y h k = absurd (omega arith)

pub bit_xor-digit : (x y : ℕ) → bit_xor x y ≡ (x + y) % 2 + 2 * bit_xor (x / 2) (y / 2)
bit_xor-digit zero y = simp bit_xor-bitwise (omega arith)
bit_xor-digit (suc x) y = simp bit_xor-bitwise (
    omega (
      arith,
      halved_fuel (λ t. t) differ x (y / 2),
      differ_lem (suc x % 2) (y % 2) (omega arith) (omega arith),
    ))
