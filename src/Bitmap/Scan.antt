-- ===== src/Bitmap/Scan.antt =====
-- What the result of `bitmap_scan` of lib/kernel/bitmap.c means, in each of its cases.
mod Loops
use magic_box.Prelude.{
  ℕ, ◌+◌, ◌-◌, ◌*◌, ◌/◌, ◌%◌, ◌^◌, ◌<◌, ◌≤◌, ◌≡◌, ◌≢◌, refl, ◌∙◌, sym, inl, inr, true, false, ltb,
  ◌==◌, arith, Bool-cases, ==_iff, ltb→lt, ltb-false,
}
use magic_box.Bitmap.{
  Bitmap, Scanned, found, not_found, assert_failed, bitmap_bit_check, bitmap_scan, scan_run,
  skip_full,
}
use magic_box.Bitmap.Update.{IsValid}
use Loops.{
  Run, IsFirstClear, start_of, start-IsFirstClear, Skipped, skip_full-Skipped, full_check,
  scan_run_sound, scan_run_complete, never_asserts, clash,
}
pub use Loops.{Run, IsFirstClear}

-- What the result of `bitmap_scan b cnt` promises.
abbrev pub ScanOk : Bitmap → ℕ → Scanned → Type 0
ScanOk b cnt (found s) =
    Run b s cnt × (s + cnt ≤ 8 * b.btmp_bytes_len + 1) × (cnt ≡ 1 → IsFirstClear b s)
ScanOk b cnt not_found = (s : ℕ) → s + cnt ≤ 8 * b.btmp_bytes_len + 1 → ¬ Run b s cnt
ScanOk b cnt assert_failed = (i : ℕ) → i < 8 * b.btmp_bytes_len → bitmap_bit_check b i ≡ true

module _ (b : Bitmap) (cnt : ℕ) where
  abbrev idx_byte : ℕ
  idx_byte = skip_full (b.btmp_bytes_len + 1) b 0

  abbrev third_loop : Scanned
  third_loop = scan_run (b.btmp_bytes_len * 8 - start_of b) b cnt (start_of b + 1) 1

  full_map : (ltb idx_byte b.btmp_bytes_len) ≡ false → bitmap_scan b cnt ≡ assert_failed
  unfolding bitmap_scan
  full_map h = ground arith

  single : (ltb idx_byte b.btmp_bytes_len) ≡ true → cnt ≡ 1 → bitmap_scan b cnt ≡ found (start_of b)
  unfolding bitmap_scan
  single h e = ground arith

  several :
      (ltb idx_byte b.btmp_bytes_len) ≡ true
      → cnt ≢ 1
      → b.btmp_bytes_len < 2 ^ 28
      → start_of b < 8 * b.btmp_bytes_len
      → bitmap_scan b cnt ≡ third_loop
  unfolding bitmap_scan
  several h e small inside =
      let other : (cnt == 1) ≡ false = ground arith in
      let remain : (b.btmp_bytes_len * 8 % 2 ^ 32 + 2 ^ 32 - start_of b) % 2 ^ 32
          ≡ b.btmp_bytes_len * 8 - start_of b =
        omega arith in
      rw (h, other, remain) refl

  start-Run : IsFirstClear b (start_of b) → Run b (start_of b) 1
  start-Run first i p q = let e : i ≡ start_of b = omega arith in rw e first.clear

  third_loop-ScanOk :
      IsFirstClear b (start_of b) → 1 < cnt → (r : Scanned) → third_loop ≡ r → ScanOk b cnt r
  third_loop-ScanOk first many (found s) h =
      let (run, le) =
        scan_run_sound (b.btmp_bytes_len * 8 - start_of b) b cnt (start_of b) (start_of b + 1) 1 s
          refl many (start-Run first) h in
      (run, omega (arith, first.inside), λ e. absurd (omega arith))
  third_loop-ScanOk first many not_found h = λ s le run. elim (Bool-cases (ltb s (start_of b))) [
    | inl before ↦
        clash (first.below s (ltb→lt s (start_of b) before)) (run s (omega arith) (omega arith))
    | inr after ↦
        scan_run_complete (b.btmp_bytes_len * 8 - start_of b) b cnt (start_of b) (start_of b + 1) 1
          s refl many h (ltb-false s (start_of b) after) (omega (arith, first.inside)) run
  ]
  third_loop-ScanOk first many assert_failed h =
      absurd (never_asserts (b.btmp_bytes_len * 8 - start_of b) b cnt (start_of b + 1) 1 h)

-- For a map of less than 2 ^ 28 bytes and a request of at least one bit, `bitmap_scan` returns an index only where that many bits in a
-- row are clear, and for a single bit it is the lowest clear bit of the map; the run ends at most
-- one bit behind the map. It returns -1 only if there is no such run, and fails its assertion only
-- if every bit of the map is set.
pub bitmap_scan-ScanOk :
    (b : Bitmap) (cnt : ℕ)
    → IsValid b
    → b.btmp_bytes_len < 2 ^ 28
    → 1 ≤ cnt
    → ScanOk b cnt (bitmap_scan b cnt)
bitmap_scan-ScanOk b cnt ok small pos = elim (Bool-cases (ltb (idx_byte b cnt) b.btmp_bytes_len)) [
  | inl inside ↦
      let first = start-IsFirstClear b ok (ltb→lt _ _ inside) in
      elim (Bool-cases (cnt == 1)) [
        | inl one ↦
            let e : cnt ≡ 1 = (==_iff cnt 1).0 one in
            rw (single b cnt inside e, e)
              (start-Run b cnt first, omega (arith, first.inside), λ _. first)
        | inr more ↦
            rw (several b cnt inside (ground arith) small first.inside)
              (third_loop-ScanOk b cnt first (ground arith) (third_loop b cnt) refl)
      ]
  | inr outside ↦ rw (full_map b cnt outside) λ i p. full_check b i (
      (skip_full-Skipped (b.btmp_bytes_len + 1) b 0 (omega arith)).full (i / 8) (omega arith)
        (omega (arith, ltb-false (idx_byte b cnt) b.btmp_bytes_len outside)))
]
