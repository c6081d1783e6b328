-- ===== src/Prelude/Bits.antt =====
-- Single bits of native words: what `|`, `&`, `^` and a 32-bit `~` do to each bit.
mod Step
use Prim.Native.Nat.{
  ℕ, zero, suc, ◌+◌, ◌-◌, ◌*◌, ◌/◌, ◌%◌, ◌^◌, ◌≤◌, ◌<◌, bit_and, bit_or, bit_xor, bit_and-bitwise,
}
use mathlib.Core.Path.{◌≡◌, refl, ap}
use mathlib.Core.Logic.{◌⊎◌}
use mathlib.Core.Bool.{Bool, true, false, not, ◌&&◌, ◌||◌, xor}
use native.Mathlib.Nat.{pow-suc, one-le-pow}
use native.Mathlib.Omega.{arith}
use magic_box.Prelude.Tests.{ltb, ◌==◌, if◌then◌else◌}
use Step.{bit_and-digit, bit_or-digit, bit_xor-digit}

-- Bit `k` of `x`.
abbrev pub test_bit : ℕ → ℕ → Bool
test_bit x zero = x % 2 == 1
test_bit x (suc k) = test_bit (x / 2) k

-- Zero as the second number, by a bound on the first.
bit_and-le_zero_below : (w x : ℕ) → x < 2 ^ w → bit_and x 0 ≤ 0
bit_and-le_zero_below zero x h =
    let e : x ≡ 0 = omega arith in rw e (omega (arith, bit_and-digit 0 0))
bit_and-le_zero_below (suc w) x h =
    omega (arith, bit_and-digit x 0, bit_and-le_zero_below w (x / 2) (omega (arith, pow-suc 2 w)))

bit_xor-zero_below : (w x : ℕ) → x < 2 ^ w → bit_xor x 0 ≡ x
bit_xor-zero_below zero x h = let e : x ≡ 0 = omega arith in rw e
bit_xor-zero_below (suc w) x h =
    omega (arith, bit_xor-digit x 0, bit_xor-zero_below w (x / 2) (omega (arith, pow-suc 2 w)))

below_pow : (x : ℕ) → x < 2 ^ x
below_pow zero = omega arith
below_pow (suc x) = omega (arith, pow-suc 2 x, below_pow x)

-- A set bit is at least its weight.
pub bit_at : (k a : ℕ) → test_bit a k ≡ true → 2 ^ k ≤ a
bit_at zero a h = ground arith
bit_at (suc k) a h = omega (arith, pow-suc 2 k, bit_at k (a / 2) h)

pub test_bit-bit_or : (a b k : ℕ) → test_bit (bit_or a b) k ≡ (test_bit a k || test_bit b k)
test_bit-bit_or a b zero = ground (arith, bit_or-digit a b)
test_bit-bit_or a b (suc k) =
    let half : bit_or a b / 2 ≡ bit_or (a / 2) (b / 2) = omega (arith, bit_or-digit a b) in
    rw half (test_bit-bit_or (a / 2) (b / 2) k)

pub test_bit-bit_and : (a b k : ℕ) → test_bit (bit_and a b) k ≡ (test_bit a k && test_bit b k)
test_bit-bit_and a b zero = ground (arith, bit_and-digit a b)
test_bit-bit_and a b (suc k) =
    let half : bit_and a b / 2 ≡ bit_and (a / 2) (b / 2) = omega (arith, bit_and-digit a b) in
    rw half (test_bit-bit_and (a / 2) (b / 2) k)

pub test_bit-zero : (k : ℕ) → test_bit 0 k ≡ false
test_bit-zero zero = refl
test_bit-zero (suc k) = test_bit-zero k

pub test_bit-pow : (n k : ℕ) → test_bit (2 ^ n) k ≡ (n == k)
test_bit-pow zero zero = refl
test_bit-pow zero (suc k) = ground (arith, test_bit-zero k)
test_bit-pow (suc n) zero = ground (arith, pow-suc 2 n)
test_bit-pow (suc n) (suc k) =
    let half : 2 ^ suc n / 2 ≡ 2 ^ n = omega (arith, pow-suc 2 n) in
    rw half (ground (arith, test_bit-pow n k))

-- The complement of a word of `w` bits.
pub test_bit-complement :
    (w x k : ℕ) → k < w → x < 2 ^ w → test_bit (2 ^ w - 1 - x) k ≡ not (test_bit x k)
test_bit-complement zero x k h b = absurd (omega arith)
test_bit-complement (suc w) x zero h b = ground (arith, pow-suc 2 w)
test_bit-complement (suc w) x (suc k) h b =
    let half : (2 ^ suc w - 1 - x) / 2 ≡ 2 ^ w - 1 - x / 2 = omega (arith, pow-suc 2 w) in
    rw half (test_bit-complement w (x / 2) k (omega arith) (omega (arith, pow-suc 2 w)))

pub test_bit-above : (w x k : ℕ) → x < 2 ^ w → w ≤ k → test_bit x k ≡ false
test_bit-above zero x k h b = let e : x ≡ 0 = omega arith in rw e (test_bit-zero k)
test_bit-above (suc w) x zero h b = absurd (omega arith)
test_bit-above (suc w) x (suc k) h b =
    test_bit-above w (x / 2) k (omega (arith, pow-suc 2 w)) (omega arith)

-- Words with the same bits are the same.
pub eq_of_bits :
    (w x y : ℕ) → x < 2 ^ w → y < 2 ^ w → ((k : ℕ) → k < w → test_bit x k ≡ test_bit y k) → x ≡ y
eq_of_bits zero x y hx hy h = omega arith
eq_of_bits (suc w) x y hx hy h =
    let halves : x / 2 ≡ y / 2 =
      eq_of_bits w (x / 2) (y / 2) (omega (arith, pow-suc 2 w)) (omega (arith, pow-suc 2 w))
        (λ k b. h (suc k) (omega arith)) in
    ground (arith, halves, h 0 (omega arith))

pub bit_or-lt : (w a b : ℕ) → a < 2 ^ w → b < 2 ^ w → bit_or a b < 2 ^ w
bit_or-lt zero a b ha hb =
    let ea : a ≡ 0 = omega arith in let eb : b ≡ 0 = omega arith in rw (ea, eb) (omega arith)
bit_or-lt (suc w) a b ha hb = omega (
  arith,
  pow-suc 2 w,
  bit_or-digit a b,
  bit_or-lt w (a / 2) (b / 2) (omega (arith, pow-suc 2 w)) (omega (arith, pow-suc 2 w)),
)

bit_and-le_zero : (a : ℕ) → bit_and a 0 ≤ 0
bit_and-le_zero a = bit_and-le_zero_below a a (below_pow a)

pub bit_and-le : (w a b : ℕ) → b < 2 ^ w → bit_and a b ≤ b
bit_and-le zero a b hb = let eb : b ≡ 0 = omega arith in rw eb (bit_and-le_zero a)
bit_and-le (suc w) a b hb =
    omega (arith, bit_and-digit a b, bit_and-le w (a / 2) (b / 2) (omega (arith, pow-suc 2 w)))

pub bit_xor-zero : (a : ℕ) → bit_xor a 0 ≡ a
bit_xor-zero a = bit_xor-zero_below a a (below_pow a)

-- Flipping bit `k` adds or takes `2 ^ k`.
pub bit_xor-pow : (k a : ℕ) → bit_xor a (2 ^ k) ≡ (if test_bit a k then a - 2 ^ k else a + 2 ^ k)
bit_xor-pow zero a = ground (arith, bit_xor-digit a 1, bit_xor-zero (a / 2))
bit_xor-pow (suc k) a =
    let half : 2 ^ suc k / 2 ≡ 2 ^ k = omega (arith, pow-suc 2 k) in
    ground (
      arith,
      half,
      pow-suc 2 k,
      bit_xor-digit a (2 ^ suc k),
      bit_xor-pow k (a / 2),
      bit_at k (a / 2),
    )

-- Masking with one bit.
pub bit_and-pow : (k a : ℕ) → bit_and a (2 ^ k) ≡ (if test_bit a k then 2 ^ k else 0)
bit_and-pow zero a = ground (arith, bit_and-digit a 1, bit_and-le_zero (a / 2))
bit_and-pow (suc k) a =
    let half : 2 ^ suc k / 2 ≡ 2 ^ k = omega (arith, pow-suc 2 k) in
    ground (arith, half, pow-suc 2 k, bit_and-digit a (2 ^ suc k), bit_and-pow k (a / 2))

pub pow-lt : (k w : ℕ) → k < w → 2 ^ k < 2 ^ w
pow-lt zero zero h = absurd (omega arith)
pow-lt zero (suc w) h = omega (arith, pow-suc 2 w, one-le-pow w 2 (omega arith))
pow-lt (suc k) zero h = absurd (omega arith)
pow-lt (suc k) (suc w) h = omega (arith, pow-suc 2 w, pow-suc 2 k, pow-lt k w (omega arith))

pub one_le_pow : (k : ℕ) → 1 ≤ 2 ^ k
one_le_pow k = one-le-pow k 2 (omega arith)

pub bit_and-le_left : (w a b : ℕ) → a < 2 ^ w → bit_and a b ≤ a
bit_and-le_left zero a b h =
    let e : a ≡ 0 = omega arith in rw e (omega (arith, bit_and-digit 0 b, bit_and-bitwise 0 b))
bit_and-le_left (suc w) a b h =
    omega (arith, bit_and-digit a b, bit_and-le_left w (a / 2) (b / 2) (omega (arith, pow-suc 2 w)))

pub bit_and-pow_left : (k a : ℕ) → bit_and (2 ^ k) a ≡ (if test_bit a k then 2 ^ k else 0)
bit_and-pow_left zero a = ground (arith, bit_and-digit 1 a, bit_and-bitwise 0 (a / 2))
bit_and-pow_left (suc k) a =
    let half : 2 ^ suc k / 2 ≡ 2 ^ k = omega (arith, pow-suc 2 k) in
    ground (arith, half, pow-suc 2 k, bit_and-digit (2 ^ suc k) a, bit_and-pow_left k (a / 2))

pub pow-le : (k w : ℕ) → k ≤ w → 2 ^ k ≤ 2 ^ w
pow-le zero w h = one_le_pow w
pow-le (suc k) zero h = absurd (omega arith)
pow-le (suc k) (suc w) h = omega (arith, pow-suc 2 w, pow-suc 2 k, pow-le k w (omega arith))
