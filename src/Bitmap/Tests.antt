-- ===== src/Bitmap/Tests.antt =====
-- Runs of the bitmap code, and its theorems at concrete maps.
use magic_box.Prelude.{
  ℕ, ◌<◌, ◌≡◌, refl, true, false, arith, if◌then◌else◌, ◌==◌, Bool-cases, ==_iff, inl, inr, zero,
  suc,
}
use magic_box.Bitmap.{
  Bitmap, found, bitmap_bit_check, bitmap_scan, bitmap_count, bitmap_init, skip_full, skip_set,
  count_bytes, count_byte,
}
use magic_box.Bitmap.Update.{IsValid, bit_check-init}
use magic_box.Bitmap.Scan.{Run, ScanOk, bitmap_scan-ScanOk}
use magic_box.Bitmap.Overrun.{bitmap_scan-overrun}

-- One byte, 0x7f, and zeros behind it.
abbrev one_free : Bitmap
one_free = record { btmp_bytes_len = 1; bits = λ i. if i == 0 then 0x7f else 0 }

one_free-IsValid : IsValid one_free
one_free-IsValid = record { bytes = λ i. ground arith }

scan_one : bitmap_scan one_free 1 ≡ found 7
unfolding bitmap_scan skip_full skip_set
scan_one = refl

count_one : bitmap_count one_free ≡ 1
unfolding bitmap_count count_bytes count_byte
count_one = refl

below_seven : (i : ℕ) → i < 7 → bitmap_bit_check one_free i ≡ true
unfolding bitmap_bit_check
below_seven zero h = refl
below_seven (suc zero) h = refl
below_seven (suc (suc zero)) h = refl
below_seven (suc (suc (suc zero))) h = refl
below_seven (suc (suc (suc (suc zero)))) h = refl
below_seven (suc (suc (suc (suc (suc zero))))) h = refl
below_seven (suc (suc (suc (suc (suc (suc zero)))))) h = refl
below_seven (suc (suc (suc (suc (suc (suc (suc i))))))) h = absurd (omega arith)

Run-behind : Run one_free 7 2
unfolding bitmap_bit_check
Run-behind i p q = elim (Bool-cases (i == 7)) [
  | inl seven ↦ rw ((==_iff i 7).0 seven)
  | inr other ↦ let e : i ≡ 8 = ground arith in rw e
]

bitmap_scan-ScanOk_example : ScanOk one_free 2 (bitmap_scan one_free 2)
bitmap_scan-ScanOk_example =
    bitmap_scan-ScanOk one_free 2 one_free-IsValid (omega arith) (omega arith)

bitmap_scan-overrun_example : bitmap_scan one_free 2 ≡ found 7
bitmap_scan-overrun_example =
    bitmap_scan-overrun one_free 2 7 one_free-IsValid (omega arith) (omega arith) refl below_seven
      Run-behind

bit_check-init_example : bitmap_bit_check (bitmap_init one_free) 3 ≡ false
bit_check-init_example = bit_check-init one_free 3 (omega arith)
