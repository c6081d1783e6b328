-- ===== src/Bitmap.antt =====
-- lib/kernel/bitmap.c and include/uapi/bitmap.h. `bits` is the memory from the pointer on: a byte
-- at every index, so that a read behind the end of the map has its value.
pub mod Update
pub mod Scan
pub mod Overrun
pub mod Count
mod Tests
use magic_box.Prelude.{
  ℕ, zero, suc, ◌+◌, ◌-◌, ◌*◌, ◌/◌, ◌%◌, ◌^◌, Bool, true, false, not, ◌&&◌, ltb, ◌==◌,
  if◌then◌else◌, bit_and, bit_or,
}

pub record Bitmap : Type 0 where
  pub btmp_bytes_len : ℕ
  pub bits : ℕ → ℕ

abbrev pub bitmap_mask : ℕ
bitmap_mask = 1

abbrev pub update : (ℕ → ℕ) → ℕ → ℕ → ℕ → ℕ
update f i v j = if j == i then v else f j

unfoldable pub bitmap_init : Bitmap → Bitmap
bitmap_init b = record b { bits = λ i. if ltb i b.btmp_bytes_len then 0 else b.bits i }

unfoldable pub bitmap_bit_check : Bitmap → ℕ → Bool
bitmap_bit_check b bit_idx =
    let byte_idx = bit_idx / 8 in
    let offset_in_byte = bit_idx % 8 in
    not (bit_and (b.bits byte_idx) (bitmap_mask * 2 ^ offset_in_byte) == 0)

-- What `bitmap_scan` does: return an index, return -1, or fail its `ASSERT`.
pub data Scanned : Type 0 where
  found : ℕ → Scanned
  not_found : Scanned
  assert_failed : Scanned

-- The first loop, from `idx_byte` on; `fuel` is more than the bytes left.
unfoldable pub skip_full : ℕ → Bitmap → ℕ → ℕ
skip_full zero b idx_byte = idx_byte
skip_full (suc fuel) b idx_byte =
    let rest = skip_full fuel b (idx_byte + 1) in
    if (0xff == b.bits idx_byte) && ltb idx_byte b.btmp_bytes_len then rest else idx_byte

-- The second loop: the mask is cut to a byte, so the loop ends at bit 8 at the latest.
unfoldable pub skip_set : ℕ → ℕ → ℕ → ℕ
skip_set zero byte idx_bit = idx_bit
skip_set (suc fuel) byte idx_bit =
    let rest = skip_set fuel byte (idx_bit + 1) in
    if bit_and (bitmap_mask * 2 ^ idx_bit % 256) byte == 0 then idx_bit else rest

-- The third loop, by the bits that remain.
unfoldable pub scan_run : ℕ → Bitmap → (cnt next_bit count : ℕ) → Scanned
scan_run zero b cnt next_bit count = not_found
scan_run (suc bit_remain) b cnt next_bit count =
    let count' = if bitmap_bit_check b next_bit then 0 else count + 1 in
    let rest = scan_run bit_remain b cnt (next_bit + 1) count' in
    if count' == cnt then found (next_bit + 1 - cnt) else rest

-- `bit_remain` is a `uint32_t`, and so is the product in it. An index below 2 ^ 31 is the `int` that is
-- returned; the theorems are about maps below 2 ^ 28 bytes, where every index is.
unfoldable pub bitmap_scan : Bitmap → ℕ → Scanned
bitmap_scan b cnt =
    let idx_byte = skip_full (b.btmp_bytes_len + 1) b 0 in
    let bit_idx_start = idx_byte * 8 + skip_set 8 (b.bits idx_byte) 0 in
    let bit_remain = (b.btmp_bytes_len * 8 % 2 ^ 32 + 2 ^ 32 - bit_idx_start) % 2 ^ 32 in
    let run = scan_run bit_remain b cnt (bit_idx_start + 1) 1 in
    if ltb idx_byte b.btmp_bytes_len
    then (if cnt == 1 then found bit_idx_start else run)
    else assert_failed

-- `value` is true for 1 and false for 0, the values that the `ASSERT` admits.
unfoldable pub bitmap_set : Bitmap → ℕ → Bool → Bitmap
bitmap_set b bit_idx value =
    let byte_idx = bit_idx / 8 in
    let mask = bitmap_mask * 2 ^ (bit_idx % 8) in
    let old = b.bits byte_idx in
    let new = if value then bit_or old mask % 256 else bit_and old (2 ^ 32 - 1 - mask) % 256 in
    record b { bits = update b.bits byte_idx new }

-- The inner loop of `bitmap_count`, by the bits left of the byte.
unfoldable pub count_byte : ℕ → ℕ → ℕ → ℕ → ℕ
count_byte zero byte j count = count
count_byte (suc left) byte j count =
    count_byte left byte (j + 1)
      (if bit_and byte (bitmap_mask * 2 ^ j) == 0 then count + 1 else count)

unfoldable pub count_bytes : ℕ → Bitmap → ℕ → ℕ → ℕ
count_bytes zero b i count = count
count_bytes (suc left) b i count = count_bytes left b (i + 1) (count_byte 8 (b.bits i) 0 count)

unfoldable pub bitmap_count : Bitmap → ℕ
bitmap_count b = count_bytes b.btmp_bytes_len b 0 0
