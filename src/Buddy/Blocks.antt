-- ===== src/Buddy/Blocks.antt =====
-- Aligned blocks of 2 ^ k pages: which pages they hold, their halves and their buddies.
use native.Mathlib.Nat.{
  pow-suc, div-div-eq-div-mul, div-eq_of_lt-le, div-mul-le_self, lt-div-mul-add, div-add-mod',
  mul-mod_left, add-div_right, add-mod_right,
}
use magic_box.Prelude.{
  ℕ, zero, suc, ◌+◌, ◌-◌, ◌*◌, ◌/◌, ◌%◌, ◌^◌, ◌<◌, ◌≤◌, ◌≡◌, ◌⊎◌, inl, inr, refl, ap, sym, ◌∙◌, ltb,
  leb, ◌==◌, ◌&&◌, if◌then◌else◌, arith, bit_xor, Bool-cases,
}
use magic_box.Prelude.Bits.{test_bit, bit_xor-pow, bit_at, one_le_pow}

abbrev pub IsAligned : ℕ → ℕ → Type 0
IsAligned k a = a % 2 ^ k ≡ 0

-- 1 for a page of the block, 0 for any other.
unfoldable pub in_block : ℕ → ℕ → ℕ → ℕ
in_block a k p = if leb a p && ltb p (a + 2 ^ k) then 1 else 0

pub in_block-le : (a k p : ℕ) → in_block a k p ≤ 1
unfolding in_block
in_block-le a k p = ground arith

pub in_block_self : (a k : ℕ) → in_block a k a ≡ 1
unfolding in_block
in_block_self a k = ground (arith, one_le_pow k)

-- A block is its two halves.
pub in_block-halves : (a k p : ℕ) → in_block a (suc k) p ≡ in_block a k p + in_block (a + 2 ^ k) k p
unfolding in_block
in_block-halves a k p = ground (arith, pow-suc 2 k)

div-pow-suc : (x k : ℕ) → x / 2 ^ suc k ≡ x / 2 ^ k / 2
div-pow-suc x k =
    rw (div-div-eq-div-mul x (2 ^ k) 2) (ap (λ (m : ℕ). x / m) (omega (arith, pow-suc 2 k)))

div-pow-suc' : (x k : ℕ) → x / 2 ^ suc k ≡ x / 2 / 2 ^ k
div-pow-suc' x k =
    rw (div-div-eq-div-mul x 2 (2 ^ k)) (ap (λ (m : ℕ). x / m) (omega (arith, pow-suc 2 k)))

pub aligned_mul : (k a : ℕ) → IsAligned k a → a ≡ a / 2 ^ k * 2 ^ k
aligned_mul k a al = omega (arith, al, div-add-mod' a (2 ^ k))

IsAligned-of_mul : (k a q : ℕ) → a ≡ q * 2 ^ k → IsAligned k a
IsAligned-of_mul k a q e = rw e (mul-mod_left q (2 ^ k))

-- The pages of an aligned block are those with its quotient.
pub in_block-quotient : (a k p : ℕ) → IsAligned k a → (in_block a k p ≡ 1) → p / 2 ^ k ≡ a / 2 ^ k
unfolding in_block
in_block-quotient a k p al h =
    div-eq_of_lt-le (2 ^ k) (ground (arith, aligned_mul k a al))
      (ground (arith, aligned_mul k a al))

pub quotient-in_block : (a k p : ℕ) → IsAligned k a → p / 2 ^ k ≡ a / 2 ^ k → in_block a k p ≡ 1
unfolding in_block
quotient-in_block a k p al h =
    let low : a / 2 ^ k * 2 ^ k ≤ p = rw h at (div-mul-le_self p (2 ^ k)) in
    let high : p < a / 2 ^ k * 2 ^ k + 2 ^ k =
      rw h at (lt-div-mul-add {a = p} {b = 2 ^ k} (one_le_pow k)) in
    ground (arith, aligned_mul k a al, low, high)

test_bit-quotient : (x k : ℕ) → test_bit x k ≡ (x / 2 ^ k % 2 == 1)
test_bit-quotient x zero = let e : x / 1 ≡ x = omega arith in rw e
test_bit-quotient x (suc k) = rw div-pow-suc' (test_bit-quotient (x / 2) k)

-- Pages that share a block share every larger one.
pub coarser : (d k p q : ℕ) → p / 2 ^ k ≡ q / 2 ^ k → p / 2 ^ (k + d) ≡ q / 2 ^ (k + d)
coarser zero k p q e = let z : k + 0 ≡ k = omega arith in rw z e
coarser (suc d) k p q e =
    let z : k + suc d ≡ suc (k + d) = omega arith in
    rw (z, div-pow-suc p (k + d), div-pow-suc q (k + d), coarser d k p q e)

pub finer-IsAligned : (d k a : ℕ) → IsAligned (k + d) a → IsAligned k a
finer-IsAligned zero k a al = let z : k + 0 ≡ k = omega arith in rw z at al
finer-IsAligned (suc d) k a al =
    let z : k + suc d ≡ suc (k + d) = omega arith in
    let whole = aligned_mul (suc (k + d)) a (rw z at al) in
    let double : a / 2 ^ suc (k + d) * 2 ^ suc (k + d) ≡ a / 2 ^ suc (k + d) * 2 * 2 ^ (k + d) =
      omega (arith, ap (λ (t : ℕ). a / 2 ^ suc (k + d) * t) (pow-suc 2 (k + d))) in
    finer-IsAligned d k a (IsAligned-of_mul (k + d) a (a / 2 ^ suc (k + d) * 2) (whole ∙ double))

add_quotient : (k a : ℕ) → (a + 2 ^ k) / 2 ^ k ≡ a / 2 ^ k + 1
add_quotient k a = add-div_right a (one_le_pow k)

-- The buddy of a block is the block before it or the block behind it, by the bit of its order.
abbrev pub Pair : ℕ → ℕ → ℕ → Type 0
Pair k a b = ((b + 2 ^ k ≡ a) × (b / 2 ^ k % 2 ≡ 0)) ⊎ ((b ≡ a + 2 ^ k) × (a / 2 ^ k % 2 ≡ 0))

pub buddy-Pair : (k a : ℕ) → Pair k a (bit_xor a (2 ^ k))
buddy-Pair k a = elim (Bool-cases (test_bit a k)) [
  | inl set ↦
      let flip : bit_xor a (2 ^ k) ≡ a - 2 ^ k = ground (arith, bit_xor-pow k a) in
      let e : a - 2 ^ k + 2 ^ k ≡ a = omega (arith, bit_at k a set) in
      let q = rw e at (add_quotient k (a - 2 ^ k)) in
      rw flip (inl (e, ground (arith, q, test_bit-quotient a k)))
  | inr clear ↦
      let flip : bit_xor a (2 ^ k) ≡ a + 2 ^ k = ground (arith, bit_xor-pow k a) in
      rw flip (inr (refl, ground (arith, test_bit-quotient a k)))
]

-- The smaller of the two.
abbrev pub lower : ℕ → ℕ → ℕ
lower a b = if ltb b a then b else a

IsAligned-even : (k a : ℕ) → IsAligned k a → a / 2 ^ k % 2 ≡ 0 → IsAligned (suc k) a
IsAligned-even k a al even =
    let half : a / 2 ^ k ≡ a / 2 ^ k / 2 * 2 = omega arith in
    IsAligned-of_mul (suc k) a (a / 2 ^ k / 2) (
      omega (
        arith,
        aligned_mul k a al,
        ap (λ (t : ℕ). t * 2 ^ k) half,
        ap (λ (t : ℕ). a / 2 ^ k / 2 * t) (pow-suc 2 k),
      ))

pub Pair-quotient : (k a b : ℕ) → Pair k a b → b / 2 ^ suc k ≡ a / 2 ^ suc k
Pair-quotient k a b (inl (e, even)) =
    rw (div-pow-suc a k, div-pow-suc b k, ← e, add_quotient k b) (omega arith)
Pair-quotient k a b (inr (e, even)) =
    rw (div-pow-suc a k, div-pow-suc b k, e, add_quotient k a) (omega arith)

pub Pair-IsAligned : (k a b : ℕ) → Pair k a b → IsAligned k a → IsAligned k b
Pair-IsAligned k a b (inl (e, even)) al =
    sym (add-mod_right b (2 ^ k)) ∙ (ap (λ (t : ℕ). t % 2 ^ k) e ∙ al)
Pair-IsAligned k a b (inr (e, even)) al = rw e (add-mod_right a (2 ^ k) ∙ al)

-- Together they are the aligned block of twice the size that begins at the smaller of the two.
pub Pair-block :
    (k a b : ℕ)
    → Pair k a b
    → IsAligned k a
    → IsAligned (suc k) (lower a b)
      × ((p : ℕ) → in_block (lower a b) (suc k) p ≡ in_block a k p + in_block b k p)
Pair-block k a b (inl (e, even)) al =
    let c : lower a b ≡ b = ground (arith, one_le_pow k) in
    rw c (
      IsAligned-even k b (Pair-IsAligned k a b (inl (e, even)) al) even,
      λ p. omega (arith, in_block-halves b k p, ap (λ (t : ℕ). in_block t k p) e),
    )
Pair-block k a b (inr (e, even)) al =
    let c : lower a b ≡ a = ground (arith, one_le_pow k) in
    rw c (
      IsAligned-even k a al even,
      λ p. omega (arith, in_block-halves a k p, ap (λ (t : ℕ). in_block t k p) e),
    )
