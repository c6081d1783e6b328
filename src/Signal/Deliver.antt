-- ===== src/Signal/Deliver.antt =====
-- Which signal `do_signal` of kernel/signal.c delivers, and what no process can hold back.
use magic_box.Prelude.{
  ℕ, zero, suc, ◌+◌, ◌-◌, ◌^◌, ◌<◌, ◌≤◌, ◌≡◌, ◌⊎◌, inl, inr, refl, ap, sym, ◌∙◌, Bool, true, false,
  ◌==◌, ◌&&◌, ◌||◌, not, if◌then◌else◌, arith, bit_and, bit_or, Bool-cases, ==_iff,
}
use magic_box.Prelude.Bits.{test_bit-zero, bit_and-le}
use magic_box.Signal.{
  Task, Context, sigmask, complement, sig_ismember, without_kill_stop, lowest, Delivered, continues,
  deliver, do_signal,
}
use magic_box.Signal.Sets.{ismember_lem, ismember-and_not, ismember-without_kill_stop}

-- Whether a signal waits to be delivered: SIGKILL and SIGSTOP do however they are masked.
abbrev pub is_due : Task → ℕ → Bool
is_due t sig =
    sig_ismember t.signal sig && (not (sig_ismember t.blocked sig) || sig == 9 || sig == 19)

abbrev pub unmasked : Task → Task
unmasked t = record t { blocked = without_kill_stop t.blocked }

abbrev pending_of : Task → ℕ
pending_of t = bit_and t.signal (complement (without_kill_stop t.blocked))

without_kill_stop-lt : (b : ℕ) → without_kill_stop b < 2 ^ 32
unfolding without_kill_stop sigmask
without_kill_stop-lt b =
    omega (arith, bit_and-le 32 b (complement (bit_or 256 262144)) (omega arith))

ismember-pending :
    (t : Task) (sig : ℕ) → 1 ≤ sig → sig ≤ 32 → sig_ismember (pending_of t) sig ≡ is_due t sig
ismember-pending t sig p q = ground (
  arith,
  ismember-and_not t.signal (without_kill_stop t.blocked) sig (without_kill_stop-lt t.blocked) q,
  ismember-without_kill_stop t.blocked sig p q,
)

-- The result of the search among the signals from `i` on.
record Lowest (left pending i r : ℕ) : Type 0 where
  found : (r ≡ 0) ⊎ ((i ≤ r) × (r < i + left) × (sig_ismember pending r ≡ true))
  first : (j : ℕ) → i ≤ j → j < i + left → (j < r) ⊎ (r ≡ 0) → sig_ismember pending j ≡ false

lowest-Lowest : (left pending i : ℕ) → 1 ≤ i → Lowest left pending i (lowest left pending i)
unfolding lowest sig_ismember
lowest-Lowest zero pending i pos = record {
  found = inl refl;
  first = λ j p q h. absurd (omega arith);
}
lowest-Lowest (suc left) pending i pos = elim (Bool-cases (bit_and pending (sigmask i) == 0)) [
  | inl clear ↦ rw clear (later clear (lowest-Lowest left pending (i + 1) (omega arith)))
  | inr set ↦ rw set (record {
    found = inr (omega arith, omega arith, ground arith);
    first = λ j p q h. absurd (before j p h);
  })
]
  where
    before : (j : ℕ) → i ≤ j → (j < i) ⊎ (i ≡ 0) → ⊥
    before j p (inl h) = omega arith
    before j p (inr h) = omega arith

    later :
        (bit_and pending (sigmask i) == 0) ≡ true
        → Lowest left pending (i + 1) (lowest left pending (i + 1))
        → Lowest (suc left) pending i (lowest left pending (i + 1))
    later clear ih = record {
      found = shift ih.found;
      first = λ j p q h. each j p q h (Bool-cases (j == i));
    }
      where
        shift :
            (lowest left pending (i + 1) ≡ 0)
              ⊎ ((i + 1 ≤ lowest left pending (i + 1))
                  × (lowest left pending (i + 1) < i + 1 + left)
                  × (not (bit_and pending (sigmask (lowest left pending (i + 1))) == 0) ≡ true))
            → (lowest left pending (i + 1) ≡ 0)
              ⊎ ((i ≤ lowest left pending (i + 1))
                  × (lowest left pending (i + 1) < i + suc left)
                  × (not (bit_and pending (sigmask (lowest left pending (i + 1))) == 0) ≡ true))
        shift (inl e) = inl e
        shift (inr (p, q, m)) = inr (omega arith, omega arith, m)

        each :
            (j : ℕ)
            → i ≤ j
            → j < i + suc left
            → (j < lowest left pending (i + 1)) ⊎ (lowest left pending (i + 1) ≡ 0)
            → ((j == i) ≡ true) ⊎ ((j == i) ≡ false)
            → not (bit_and pending (sigmask j) == 0) ≡ false
        each j p q h (inl here) = rw ((==_iff j i).0 here, clear) refl
        each j p q h (inr other) = ih.first j (ground arith) (omega arith) h

-- What `do_signal` comes to: nothing is due and only SIGKILL and SIGSTOP leave the mask, or the due
-- signal of the lowest number is delivered.
abbrev pub DoOk : Task → Context → Delivered → Type 0
DoOk t c r =
    (((i : ℕ) → 1 ≤ i → i ≤ 31 → is_due t i ≡ false) × (r ≡ continues (unmasked t) c))
    ⊎ ((sig : ℕ) × (1 ≤ sig)
        × (sig ≤ 31)
        × (is_due t sig ≡ true)
        × ((i : ℕ) → 1 ≤ i → i < sig → is_due t i ≡ false)
        × (r ≡ deliver (unmasked t) c sig))

none_pending : (sig : ℕ) → sig_ismember 0 sig ≡ false
none_pending sig = ismember_lem 0 sig ∙ test_bit-zero (sig - 1)

-- `do_signal` delivers the signal of the lowest number among those from 1 to 31 that are pending and
-- not blocked, where SIGKILL and SIGSTOP count as not blocked whatever the mask says; if there is
-- none it changes nothing but takes these two out of the mask.
pub do_signal-DoOk : (t : Task) (c : Context) → DoOk t c (do_signal t c)
unfolding do_signal
do_signal-DoOk t c = elim (Bool-cases (pending_of t == 0)) [
  | inl empty ↦
      let zero : pending_of t ≡ 0 = (==_iff (pending_of t) 0).0 empty in
      rw empty (
        inl (
          (λ i p q.
              sym (ismember-pending t i p (omega arith))
              ∙ (ap (λ (x : ℕ). sig_ismember x i) zero ∙ none_pending i)),
          refl,
        ))
  | inr some_set ↦
      rw some_set
        (choose (lowest 31 (pending_of t) 1) (lowest-Lowest 31 (pending_of t) 1 (omega arith)))
]
  where
    choose :
        (r : ℕ)
        → Lowest 31 (pending_of t) 1 r
        → DoOk t c (if r == 0 then continues (unmasked t) c else deliver (unmasked t) c r)
    choose r ok = by_found ok.found
      where
        by_found :
            (r ≡ 0) ⊎ ((1 ≤ r) × (r < 1 + 31) × (sig_ismember (pending_of t) r ≡ true))
            → DoOk t c (if r == 0 then continues (unmasked t) c else deliver (unmasked t) c r)
        by_found (inl e) =
            let z : (r == 0) ≡ true = ground arith in
            rw z (
              inl (
                (λ i p q.
                    sym (ismember-pending t i p (omega arith))
                    ∙ ok.first i p (omega arith) (inr e)),
                refl,
              ))
        by_found (inr (p, q, m)) =
            let nz : (r == 0) ≡ false = ground arith in
            rw nz (
              inr (
                r,
                p,
                omega arith,
                sym (ismember-pending t r p (omega arith)) ∙ m,
                (λ i p' lt.
                    sym (ismember-pending t i p' (omega arith))
                    ∙ ok.first i p' (omega arith) (inl lt)),
                refl,
              ))
