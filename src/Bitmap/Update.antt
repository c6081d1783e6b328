-- ===== src/Bitmap/Update.antt =====
-- Setting, clearing and counting the bits of lib/kernel/bitmap.c.
use magic_box.Prelude.{
  ℕ, ◌-◌, ◌*◌, ◌/◌, ◌%◌, ◌^◌, ◌<◌, ◌≡◌, Bool, true, false, ◌==◌, if◌then◌else◌, bit_and, bit_or,
  arith,
}
use magic_box.Prelude.Bits.{
  test_bit, test_bit-bit_or, test_bit-bit_and, test_bit-pow, test_bit-complement, bit_or-lt,
  bit_and-pow, bit_and-le_left, pow-lt, test_bit-zero, one_le_pow,
}
use magic_box.Bitmap.{Bitmap, bitmap_init, bitmap_bit_check, bitmap_set}

-- Every cell is a byte.
pub record IsValid (b : Bitmap) : Type 0 where
  pub bytes : (i : ℕ) → b.bits i < 256

pub bit_check_lem : (b : Bitmap) (i : ℕ) → bitmap_bit_check b i ≡ test_bit (b.bits (i / 8)) (i % 8)
unfolding bitmap_bit_check
bit_check_lem b i = ground (arith, bit_and-pow (i % 8) (b.bits (i / 8)), one_le_pow (i % 8))

-- After `bitmap_init` every bit of the map is clear.
pub bit_check-init :
    (b : Bitmap) (i : ℕ) → i < 8 * b.btmp_bytes_len → bitmap_bit_check (bitmap_init b) i ≡ false
unfolding bitmap_init
bit_check-init b i h = ground (arith, bit_check_lem (bitmap_init b) i, test_bit-zero (i % 8))

-- The byte that `bitmap_set` writes.
new_byte : ℕ → ℕ → Bool → ℕ
new_byte old o v =
    if v then bit_or old (1 * 2 ^ o) % 256 else bit_and old (2 ^ 32 - 1 - 1 * 2 ^ o) % 256

new_byte-lt : (old o : ℕ) (v : Bool) → new_byte old o v < 256
unfolding new_byte
new_byte-lt old o v = ground arith

test_bit-new_byte :
    (old o k : ℕ) (v : Bool)
    → old < 256
    → o < 8
    → k < 8
    → test_bit (new_byte old o v) k ≡ (if o == k then v else test_bit old k)
unfolding new_byte
test_bit-new_byte old o k true h ho hk =
    ground
      (arith, test_bit-bit_or old (2 ^ o) k, test_bit-pow o k, bit_or-lt 8 old (2 ^ o), pow-lt o 8)
test_bit-new_byte old o k false h ho hk = ground (
  arith,
  test_bit-bit_and old (2 ^ 32 - 1 - 2 ^ o) k,
  test_bit-complement 32 (2 ^ o) k (omega arith) (pow-lt o 32 (omega arith)),
  test_bit-pow o k,
  bit_and-le_left 8 old (2 ^ 32 - 1 - 2 ^ o) h,
)

pub set-IsValid : (b : Bitmap) (i : ℕ) (v : Bool) → IsValid b → IsValid (bitmap_set b i v)
unfolding bitmap_set
set-IsValid b i v ok = record { bytes = λ j. ground (arith, ok.bytes j) }

-- `bitmap_set` writes the bit that it names and leaves every other bit as it was.
pub bit_check-set :
    (b : Bitmap) (i j : ℕ) (v : Bool)
    → IsValid b
    → bitmap_bit_check (bitmap_set b i v) j ≡ (if i == j then v else bitmap_bit_check b j)
unfolding bitmap_set new_byte
bit_check-set b i j v ok = ground (
  arith,
  bit_check_lem (bitmap_set b i v) j,
  bit_check_lem b j,
  test_bit-new_byte (b.bits (i / 8)) (i % 8) (j % 8) v (ok.bytes (i / 8)) (omega arith)
      (omega arith),
)
