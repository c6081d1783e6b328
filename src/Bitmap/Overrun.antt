-- ===== src/Bitmap/Overrun.antt =====
-- The run that `bitmap_scan` of lib/kernel/bitmap.c finds may end one bit behind the map: the third
-- loop also reads the bit whose index is the size of the map.
use magic_box.Prelude.{
  ℕ, ◌+◌, ◌*◌, ◌^◌, ◌<◌, ◌≡◌, Bool, true, false, arith, ltb, Bool-cases, ltb→lt, ltb-false, inl,
  inr,
}
use magic_box.Bitmap.{
  Bitmap, Scanned, found, not_found, assert_failed, bitmap_bit_check, bitmap_scan,
}
use magic_box.Bitmap.Update.{IsValid}
use magic_box.Bitmap.Scan.{Run, ScanOk, bitmap_scan-ScanOk}

clash : {c : Bool} → c ≡ true → c ≡ false → ⊥
clash p q = cc

module _ (b : Bitmap) (cnt s : ℕ) (several : 1 < cnt)
    (at_end : s + cnt ≡ 8 * b.btmp_bytes_len + 1) where
  overrun :
      ((i : ℕ) → i < s → bitmap_bit_check b i ≡ true)
      → Run b s cnt
      → (r : Scanned) → ScanOk b cnt r
      → r ≡ found s
  overrun full run (found t) (run', le, first) = elim (Bool-cases (ltb t s)) [
    | inl before ↦ absurd (clash (full t (ltb→lt t s before)) (run' t (omega arith) (omega arith)))
    | inr after ↦ let e : t ≡ s = omega (arith, ltb-false t s after) in rw e
  ]
  overrun full run not_found none' = absurd (none' s (omega arith) run)
  overrun full run assert_failed all =
      absurd (clash (all s (omega arith)) (run s (omega arith) (omega arith)))

-- Where all bits of a map of less than 2 ^ 28 bytes are set but its last `cnt - 1`, with `cnt` at least 2, and the first bit
-- behind the map happens to be clear, `bitmap_scan` returns a run of `cnt` bits that ends behind the
-- map.
pub bitmap_scan-overrun :
    (b : Bitmap) (cnt s : ℕ)
    → IsValid b
    → b.btmp_bytes_len < 2 ^ 28
    → 1 < cnt
    → s + cnt ≡ 8 * b.btmp_bytes_len + 1
    → ((i : ℕ) → i < s → bitmap_bit_check b i ≡ true)
    → Run b s cnt
    → bitmap_scan b cnt ≡ found s
bitmap_scan-overrun b cnt s ok small several at_end full run =
    overrun b cnt s several at_end full run (bitmap_scan b cnt)
      (bitmap_scan-ScanOk b cnt ok small (omega arith))
