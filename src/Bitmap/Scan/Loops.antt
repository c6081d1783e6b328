-- ===== src/Bitmap/Scan/Loops.antt =====
-- The three loops of `bitmap_scan` of lib/kernel/bitmap.c, one after the other.
use magic_box.Prelude.{
  ℕ, zero, suc, ◌+◌, ◌-◌, ◌*◌, ◌/◌, ◌%◌, ◌^◌, ◌<◌, ◌≤◌, ◌≡◌, ◌≢◌, ◌∙◌, sym, inl, inr, Bool, true,
  false, ltb, ◌==◌, arith, Bool-cases, ltb→lt, ltb-false, ==_iff,
}
use magic_box.Prelude.Bits.{
  test_bit, test_bit-zero, test_bit-complement, bit_and-pow_left, pow-lt, one_le_pow, eq_of_bits,
}
use magic_box.Bitmap.{
  Bitmap, found, not_found, assert_failed, bitmap_bit_check, skip_full, skip_set, scan_run,
}
use magic_box.Bitmap.Update.{IsValid, bit_check_lem}

-- The first loop stops at the end of the map, or at the first byte that has a clear bit.
pub record Skipped (b : Bitmap) (from to : ℕ) : Type 0 where
  pub full : (j : ℕ) → from ≤ j → j < to → b.bits j ≡ 255
  pub stops : to < b.btmp_bytes_len → b.bits to ≢ 255

pub skip_full-Skipped :
    (fuel : ℕ) (b : Bitmap) (i : ℕ) → b.btmp_bytes_len < i + fuel → Skipped b i (skip_full fuel b i)
unfolding skip_full
skip_full-Skipped zero b i h = record {
  full = λ j p q. absurd (omega arith);
  stops = λ p. absurd (omega arith);
}
skip_full-Skipped (suc fuel) b i h =
    let next = skip_full-Skipped fuel b (i + 1) (omega arith) in
    record { full = λ j p q. ground (arith, next.full j); stops = λ p. ground (arith, next.stops) }

-- The second loop stops at the lowest clear bit of a byte.
record Stopped (byte from to : ℕ) : Type 0 where
  set_below : (k : ℕ) → from ≤ k → k < to → test_bit byte k ≡ true
  clear_at : to < 8 → test_bit byte to ≡ false
  in_byte : to ≤ 8

skip_set-Stopped : (fuel byte i : ℕ) → i + fuel ≡ 8 → Stopped byte i (skip_set fuel byte i)
unfolding skip_set
skip_set-Stopped zero byte i h = record {
  set_below = λ k p q. absurd (omega arith);
  clear_at = λ p. absurd (omega arith);
  in_byte = omega arith;
}
skip_set-Stopped (suc fuel) byte i h =
    let next = skip_set-Stopped fuel byte (i + 1) (omega arith) in
    let small : 2 ^ i < 256 = pow-lt i 8 (omega arith) in
    let one : 1 ≤ 2 ^ i = one_le_pow i in
    let masked = bit_and-pow_left i byte in
    let cut : 1 * 2 ^ i % 256 ≡ 2 ^ i = omega arith in
    rw cut (record {
      set_below = λ k p q. ground (arith, masked, one, next.set_below k);
      clear_at = λ p. ground (arith, masked, one, next.clear_at);
      in_byte = ground (arith, masked, one, next.in_byte);
    })

-- A run of `cnt` clear bits.
abbrev pub Run : Bitmap → ℕ → ℕ → Type 0
Run b s cnt = (i : ℕ) → s ≤ i → i < s + cnt → bitmap_bit_check b i ≡ false

-- `s` is the lowest clear bit of the map.
pub record IsFirstClear (b : Bitmap) (s : ℕ) : Type 0 where
  pub inside : s < 8 * b.btmp_bytes_len
  pub clear : bitmap_bit_check b s ≡ false
  pub below : (i : ℕ) → i < s → bitmap_bit_check b i ≡ true

full_byte : (k : ℕ) → k < 8 → test_bit 255 k ≡ true
full_byte k h = ground (arith, test_bit-complement 8 0 k h (omega arith), test_bit-zero k)

pub full_check : (b : Bitmap) (i : ℕ) → b.bits (i / 8) ≡ 255 → bitmap_bit_check b i ≡ true
full_check b i h = rw (bit_check_lem b i, h) (full_byte (i % 8) (omega arith))

-- A byte that is not full has its lowest clear bit inside.
Stopped-inside : (byte o : ℕ) → byte < 256 → byte ≢ 255 → Stopped byte 0 o → o < 8
Stopped-inside byte o h ne st = elim (Bool-cases (ltb o 8)) [
  | inl small ↦ ground arith
  | inr large ↦ absurd (
      ne (
        eq_of_bits 8 byte 255 h (omega arith)
          (λ k b. st.set_below k (omega arith) (ground (arith, st.in_byte)) ∙ sym (full_byte k b))))
]

abbrev pub start_of : Bitmap → ℕ
start_of b =
    let idx_byte = skip_full (b.btmp_bytes_len + 1) b 0 in
    idx_byte * 8 + skip_set 8 (b.bits idx_byte) 0

pub start-IsFirstClear :
    (b : Bitmap)
    → IsValid b
    → skip_full (b.btmp_bytes_len + 1) b 0 < b.btmp_bytes_len
    → IsFirstClear b (start_of b)
start-IsFirstClear b ok h = record {
  inside = omega (arith, small);
  clear = rw (bit_check_lem b (idx * 8 + o), byte_of, bit_of) (stopped.clear_at small);
  below = λ i p. elim (Bool-cases (ltb (i / 8) idx)) [
    | inl before ↦ full_check b i (skipped.full (i / 8) (omega arith) (ltb→lt (i / 8) idx before))
    | inr same ↦
        let e : i / 8 ≡ idx = omega (arith, small, ltb-false (i / 8) idx same) in
        rw (bit_check_lem b i, e) (stopped.set_below (i % 8) (omega arith) (omega (arith, e)))
  ];
}
  where
    idx : ℕ
    idx = skip_full (b.btmp_bytes_len + 1) b 0

    o : ℕ
    o = skip_set 8 (b.bits idx) 0

    skipped : Skipped b 0 idx
    skipped = skip_full-Skipped (b.btmp_bytes_len + 1) b 0 (omega arith)

    stopped : Stopped (b.bits idx) 0 o
    stopped = skip_set-Stopped 8 (b.bits idx) 0 (omega arith)

    small : o < 8
    small = Stopped-inside (b.bits idx) o (ok.bytes idx) (skipped.stops h) stopped

    byte_of : (idx * 8 + o) / 8 ≡ idx
    byte_of = omega (arith, small)

    bit_of : (idx * 8 + o) % 8 ≡ o
    bit_of = omega (arith, small)

-- One round of the third loop, by the bit that it reads.
module _ (left : ℕ) (b : Bitmap) (cnt next count : ℕ) where
  scan_run_set :
      bitmap_bit_check b next ≡ true
      → count < cnt
      → scan_run (suc left) b cnt next count ≡ scan_run left b cnt (next + 1) 0
  unfolding scan_run
  scan_run_set e lt = ground arith

  scan_run_more :
      bitmap_bit_check b next ≡ false
      → count + 1 < cnt
      → scan_run (suc left) b cnt next count ≡ scan_run left b cnt (next + 1) (count + 1)
  unfolding scan_run
  scan_run_more e lt = ground arith

  scan_run_hit :
      bitmap_bit_check b next ≡ false
      → count + 1 ≡ cnt
      → scan_run (suc left) b cnt next count ≡ found (next + 1 - cnt)
  unfolding scan_run
  scan_run_hit e lt = ground arith

Run-snoc :
    (b : Bitmap) (from count next : ℕ)
    → from + count ≡ next
    → bitmap_bit_check b next ≡ false
    → Run b from count
    → Run b from (count + 1)
Run-snoc b from count next e clear run i p q = elim (Bool-cases (i == next)) [
  | inl here ↦ rw ((==_iff i next).0 here) clear
  | inr before ↦ run i p (ground arith)
]

Run-nil : (b : Bitmap) (s : ℕ) → Run b s 0
Run-nil b s i p q = absurd (omega arith)

found_eq : {s t : ℕ} → found s ≡ found t → s ≡ t
found_eq e = cc

not_both : {s : ℕ} → found s ≡ not_found → ⊥
not_both e = cc

pub clash : {c : Bool} → c ≡ true → c ≡ false → ⊥
clash p q = cc

empty_run : (b : Bitmap) (cnt next count s : ℕ) → scan_run zero b cnt next count ≡ found s → ⊥
unfolding scan_run
empty_run b cnt next count s h = cc

-- `count` clear bits from `from` on end before `next`.
pub scan_run_sound :
    (left : ℕ) (b : Bitmap) (cnt from next count s : ℕ)
    → from + count ≡ next
    → count < cnt
    → Run b from count
    → scan_run left b cnt next count ≡ found s
    → Run b s cnt × (s + cnt ≤ next + left)
scan_run_sound zero b cnt from next count s e lt run h = absurd (empty_run b cnt next count s h)
scan_run_sound (suc left) b cnt from next count s e lt run h =
    elim (Bool-cases (bitmap_bit_check b next)) [
      | inl set ↦
          let (run', le) =
            scan_run_sound left b cnt (next + 1) (next + 1) 0 s (omega arith) (omega arith)
              (Run-nil b (next + 1)) (sym (scan_run_set left b cnt next count set lt) ∙ h) in
          (run', omega arith)
      | inr clear ↦ elim (Bool-cases (count + 1 == cnt)) [
        | inl last ↦
            let e' : count + 1 ≡ cnt = (==_iff (count + 1) cnt).0 last in
            let at : s ≡ from =
              found_eq (sym h ∙ scan_run_hit left b cnt next count clear e') ∙ omega arith in
            (rw (at, ← e') (Run-snoc b from count next e clear run), omega arith)
        | inr more ↦
            let (run', le) =
              scan_run_sound left b cnt from (next + 1) (count + 1) s (omega arith) (ground arith)
                (Run-snoc b from count next e clear run)
                (sym (scan_run_more left b cnt next count clear (ground arith)) ∙ h) in
            (run', omega arith)
      ]
    ]

pub scan_run_complete :
    (left : ℕ) (b : Bitmap) (cnt from next count s : ℕ)
    → from + count ≡ next
    → count < cnt
    → scan_run left b cnt next count ≡ not_found
    → from ≤ s
    → s + cnt ≤ next + left
    → ¬ Run b s cnt
scan_run_complete zero b cnt from next count s e lt h p q run = absurd (omega arith)
scan_run_complete (suc left) b cnt from next count s e lt h p q run =
    elim (Bool-cases (bitmap_bit_check b next)) [
      | inl set ↦ elim (Bool-cases (ltb next s)) [
        | inl after ↦
            scan_run_complete left b cnt (next + 1) (next + 1) 0 s (omega arith) (omega arith)
              (sym (scan_run_set left b cnt next count set lt) ∙ h) (ground arith) (omega arith) run
        | inr before ↦ clash set (run next (ground arith) (omega arith))
      ]
      | inr clear ↦ elim (Bool-cases (count + 1 == cnt)) [
        | inl last ↦ not_both (sym (scan_run_hit left b cnt next count clear (ground arith)) ∙ h)
        | inr more ↦
            scan_run_complete left b cnt from (next + 1) (count + 1) s (omega arith) (ground arith)
              (sym (scan_run_more left b cnt next count clear (ground arith)) ∙ h) p (omega arith)
              run
      ]
    ]

pub never_asserts :
    (left : ℕ) (b : Bitmap) (cnt next count : ℕ) → scan_run left b cnt next count ≢ assert_failed
unfolding scan_run
never_asserts zero b cnt next count = λ h. cc
never_asserts (suc left) b cnt next count =
    ground (
      arith,
      never_asserts left b cnt (next + 1) 0,
      never_asserts left b cnt (next + 1) (count + 1),
    )
