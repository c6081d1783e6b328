-- ===== src/Bitmap/Count.antt =====
-- `bitmap_count` of lib/kernel/bitmap.c against a count bit by bit.
use magic_box.Prelude.{
  ℕ, zero, suc, ◌+◌, ◌*◌, ◌/◌, ◌%◌, ◌<◌, ◌≤◌, ◌≡◌, refl, ◌∙◌, Bool, true, false, arith, ◌==◌,
  if◌then◌else◌, Bool-cases, ==_iff, inl, inr,
}
use native.Mathlib.Nat.{zero-add}
use magic_box.Prelude.Bits.{test_bit, bit_and-pow, one_le_pow}
use magic_box.Bitmap.{Bitmap, bitmap_bit_check, bitmap_set, bitmap_count, count_byte, count_bytes}
use magic_box.Bitmap.Update.{IsValid, bit_check_lem, bit_check-set}

-- The clear bits among `n` bits from `from` on.
pub clear_from : Bitmap → ℕ → ℕ → ℕ
clear_from b from zero = 0
clear_from b from (suc n) = (if bitmap_bit_check b from then 0 else 1) + clear_from b (from + 1) n

clear_from-add :
    (b : Bitmap) (from n m : ℕ)
    → clear_from b from (n + m) ≡ clear_from b from n + clear_from b (from + n) m
unfolding clear_from
clear_from-add b from zero m =
    let e : from + 0 ≡ from = omega arith in rw (e, zero-add) (omega arith)
clear_from-add b from (suc n) m =
    let e : suc n + m ≡ suc (n + m) = omega arith in
    let e' : from + suc n ≡ from + 1 + n = omega arith in
    rw (e, e') (omega (arith, clear_from-add b (from + 1) n m))

count_byte-clear :
    (left : ℕ) (b : Bitmap) (i j count : ℕ)
    → j + left ≡ 8
    → count_byte left (b.bits i) j count ≡ count + clear_from b (i * 8 + j) left
unfolding count_byte clear_from
count_byte-clear zero b i j count e = omega arith
count_byte-clear (suc left) b i j count e =
    let next : i * 8 + j + 1 ≡ i * 8 + (j + 1) = omega arith in
    let byte : (i * 8 + j) / 8 ≡ i = omega arith in
    let bit : (i * 8 + j) % 8 ≡ j = omega arith in
    let check : bitmap_bit_check b (i * 8 + j) ≡ test_bit (b.bits i) j =
      rw (bit_check_lem b (i * 8 + j), byte, bit) refl in
    rw (check, next)
      (ground (
        arith,
        bit_and-pow j (b.bits i),
        one_le_pow j,
        count_byte-clear left b i (j + 1) (count + 1) (omega arith),
        count_byte-clear left b i (j + 1) count (omega arith),
      ))

count_bytes-clear :
    (left : ℕ) (b : Bitmap) (i count : ℕ)
    → count_bytes left b i count ≡ count + clear_from b (i * 8) (left * 8)
unfolding count_bytes clear_from
count_bytes-clear zero b i count = omega arith
count_bytes-clear (suc left) b i count =
    let e : suc left * 8 ≡ 8 + left * 8 = omega arith in
    let e' : i * 8 + 8 ≡ (i + 1) * 8 = omega arith in
    let start : i * 8 + 0 ≡ i * 8 = omega arith in
    count_bytes-clear left b (i + 1) (count_byte 8 (b.bits i) 0 count)
    ∙ rw (e, clear_from-add b (i * 8) 8 (left * 8), count_byte-clear 8 b i 0 count refl, start, e')
        (omega arith)

-- `bitmap_count` is the number of clear bits of the map.
pub bitmap_count-clear : (b : Bitmap) → bitmap_count b ≡ clear_from b 0 (b.btmp_bytes_len * 8)
unfolding bitmap_count
bitmap_count-clear b = omega (arith, count_bytes-clear b.btmp_bytes_len b 0 0)

clear_from-set_outside :
    (b : Bitmap) (i from n : ℕ) (v : Bool)
    → IsValid b
    → i < from
    → clear_from (bitmap_set b i v) from n ≡ clear_from b from n
unfolding clear_from
clear_from-set_outside b i from zero v ok h = refl
clear_from-set_outside b i from (suc n) v ok h =
    ground (arith, bit_check-set b i from v ok, clear_from-set_outside b i (from + 1) n v ok)

clear_from-set :
    (b : Bitmap) (i from n : ℕ)
    → IsValid b
    → from ≤ i
    → i < from + n
    → bitmap_bit_check b i ≡ false
    → clear_from (bitmap_set b i true) from n + 1 ≡ clear_from b from n
unfolding clear_from
clear_from-set b i from zero ok h k clear = absurd (omega arith)
clear_from-set b i from (suc n) ok h k clear = elim (Bool-cases (i == from)) [
  | inl here ↦
      let e : i ≡ from = (==_iff i from).0 here in
      ground (
        arith,
        bit_check-set b i from true ok,
        clear_from-set_outside b i (from + 1) n true ok (omega (arith, e)),
      )
  | inr later ↦ ground (
    arith,
    bit_check-set b i from true ok,
    clear_from-set b i (from + 1) n ok (ground arith) (omega arith) clear,
  )
]

-- Setting a clear bit of the map takes one from the count.
pub bitmap_count-set :
    (b : Bitmap) (i : ℕ)
    → IsValid b
    → i < 8 * b.btmp_bytes_len
    → bitmap_bit_check b i ≡ false
    → bitmap_count (bitmap_set b i true) + 1 ≡ bitmap_count b
unfolding bitmap_set
bitmap_count-set b i ok h clear =
    rw (bitmap_count-clear (bitmap_set b i true), bitmap_count-clear b)
      (clear_from-set b i 0 (b.btmp_bytes_len * 8) ok (omega arith) (omega arith) clear)
