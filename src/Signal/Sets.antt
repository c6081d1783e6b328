-- ===== src/Signal/Sets.antt =====
-- The sets of kernel/signal.c, signal by signal, and the signals that no mask holds back.
use magic_box.Prelude.{ℕ, ◌-◌, ◌^◌, ◌<◌, ◌≤◌, ◌≡◌, ◌==◌, ◌&&◌, ◌||◌, not, arith, bit_and, bit_or}
use magic_box.Prelude.Bits.{
  test_bit, test_bit-bit_or, test_bit-bit_and, test_bit-pow, test_bit-complement, bit_and-pow,
  bit_or-lt, pow-lt, one_le_pow,
}
use magic_box.Signal.{sigmask, complement, sig_addset, sig_delset, sig_ismember, without_kill_stop}

pub ismember_lem : (set sig : ℕ) → sig_ismember set sig ≡ test_bit set (sig - 1)
unfolding sig_ismember sigmask
ismember_lem set sig = ground (arith, bit_and-pow (sig - 1) set, one_le_pow (sig - 1))

pub ismember-and_not :
    (set other sig : ℕ)
    → other < 2 ^ 32
    → sig ≤ 32
    → sig_ismember (bit_and set (complement other)) sig
      ≡ (sig_ismember set sig && not (sig_ismember other sig))
ismember-and_not set other sig word le = ground (
  arith,
  ismember_lem (bit_and set (complement other)) sig,
  ismember_lem set sig,
  ismember_lem other sig,
  test_bit-bit_and set (complement other) (sig - 1),
  test_bit-complement 32 other (sig - 1) (omega arith) word,
)

pub ismember-or :
    (set other sig : ℕ)
    → sig_ismember (bit_or set other) sig ≡ (sig_ismember set sig || sig_ismember other sig)
ismember-or set other sig = ground (
  arith,
  ismember_lem (bit_or set other) sig,
  ismember_lem set sig,
  ismember_lem other sig,
  test_bit-bit_or set other (sig - 1),
)

pub ismember-sigmask : (s sig : ℕ) → 1 ≤ s → 1 ≤ sig → sig_ismember (sigmask s) sig ≡ (s == sig)
unfolding sigmask
ismember-sigmask s sig p q =
    ground (arith, ismember_lem (2 ^ (s - 1)) sig, test_bit-pow (s - 1) (sig - 1))

pub sigmask-lt : (s : ℕ) → s ≤ 32 → sigmask s < 2 ^ 32
unfolding sigmask
sigmask-lt s le = pow-lt (s - 1) 32 (omega arith)

pub ismember-without_kill_stop :
    (set sig : ℕ)
    → 1 ≤ sig
    → sig ≤ 32
    → sig_ismember (without_kill_stop set) sig
      ≡ (sig_ismember set sig && not (sig == 9) && not (sig == 19))
unfolding without_kill_stop
ismember-without_kill_stop set sig p q = ground (
  arith,
  ismember-and_not set (bit_or (sigmask 9) (sigmask 19)) sig
      (bit_or-lt 32 (sigmask 9) (sigmask 19) (sigmask-lt 9 (omega arith))
        (sigmask-lt 19 (omega arith)))
      q,
  ismember-or (sigmask 9) (sigmask 19) sig,
  ismember-sigmask 9 sig (omega arith) p,
  ismember-sigmask 19 sig (omega arith) p,
)

-- The sets behave as sets of signals.
pub ismember-addset :
    (set s sig : ℕ)
    → 1 ≤ s
    → 1 ≤ sig
    → sig_ismember (sig_addset set s) sig ≡ (sig_ismember set sig || s == sig)
unfolding sig_addset
ismember-addset set s sig p q =
    ground (arith, ismember-or set (sigmask s) sig, ismember-sigmask s sig p q)

pub ismember-delset :
    (set s sig : ℕ)
    → 1 ≤ s
    → s ≤ 32
    → 1 ≤ sig
    → sig ≤ 32
    → sig_ismember (sig_delset set s) sig ≡ (sig_ismember set sig && not (s == sig))
unfolding sig_delset
ismember-delset set s sig p q p' q' =
    ground
      (arith, ismember-and_not set (sigmask s) sig (sigmask-lt s q) q', ismember-sigmask s sig p p')
