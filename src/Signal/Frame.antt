-- ===== src/Signal/Frame.antt =====
-- The frame that kernel/signal.c leaves on the user's stack, and the return through it.
use magic_box.Prelude.{
  ℕ, zero, suc, ◌+◌, ◌*◌, ◌^◌, ◌<◌, ◌≤◌, ◌≡◌, refl, ap, ◌∙◌, false, ltb, ◌==◌, arith, some,
  Bool-cases, ==_iff, inl, inr,
}
use magic_box.Signal.{
  SigAction, Task, Context, esp_index, eip_index, update, sub32, save_words, setup_frame,
  sys_sigreturn,
}

-- The words below the ones to copy stay.
save_words-below :
    (left : ℕ) (stack memory : ℕ → ℕ) (to i a : ℕ)
    → a < to + 4 * i
    → save_words left stack memory to i a ≡ memory a
unfolding save_words
save_words-below zero stack memory to i a h = refl
save_words-below (suc left) stack memory to i a h =
    save_words-below left stack (update memory (to + 4 * i) (stack i)) to (i + 1) a (omega arith)
    ∙ ground arith

save_words-above :
    (left : ℕ) (stack memory : ℕ → ℕ) (to i a : ℕ)
    → to + 4 * (i + left) ≤ a
    → save_words left stack memory to i a ≡ memory a
unfolding save_words
save_words-above zero stack memory to i a h = refl
save_words-above (suc left) stack memory to i a h =
    save_words-above left stack (update memory (to + 4 * i) (stack i)) to (i + 1) a (omega arith)
    ∙ ground arith

save_words-saved :
    (left : ℕ) (stack memory : ℕ → ℕ) (to i j : ℕ)
    → i ≤ j
    → j < i + left
    → save_words left stack memory to i (to + 4 * j) ≡ stack j
unfolding save_words
save_words-saved zero stack memory to i j p q = absurd (omega arith)
save_words-saved (suc left) stack memory to i j p q = elim (Bool-cases (j == i)) [
  | inl here ↦
      let e : j ≡ i = (==_iff j i).0 here in
      save_words-below left stack (update memory (to + 4 * i) (stack i)) to (i + 1) (to + 4 * j)
        (omega arith)
      ∙ ground (arith, ap stack e)
  | inr later ↦
      save_words-saved left stack (update memory (to + 4 * i) (stack i)) to (i + 1) j (ground arith)
        (omega arith)
]

module _ (sig : ℕ) (sa : SigAction) (c : Context) (blocked : ℕ) (room : 88 ≤ c.stack esp_index)
    (word : c.stack esp_index < 2 ^ 32) where
  below_user : sub32 (c.stack esp_index) 88 + 88 ≡ c.stack esp_index
  below_user = omega arith

  pub saved_register :
      (i : ℕ)
      → i < 19
      → (setup_frame sig sa c blocked).memory (sub32 (c.stack esp_index) 88 + 12 + 4 * i)
        ≡ c.stack i
  unfolding setup_frame
  saved_register i lt =
      ground (arith, save_words-saved 19 c.stack c.memory (sub32 (c.stack esp_index) 88 + 12) 0 i)

  pub saved_blocked :
      (setup_frame sig sa c blocked).memory (sub32 (c.stack esp_index) 88 + 8) ≡ blocked
  unfolding setup_frame
  saved_blocked = ground arith

-- `setup_frame` makes the process go on in the handler, on a stack whose top is the restorer as the
-- return address with the signal as the argument above it, and leaves the words of the user's stack
-- from the old stack pointer on as they are. The stack pointer has room for the frame below it.
pub setup_frame-entry :
    (sig : ℕ) (sa : SigAction) (c : Context) (blocked : ℕ)
    → 88 ≤ c.stack esp_index
    → c.stack esp_index < 2 ^ 32
    → ((setup_frame sig sa c blocked).stack eip_index ≡ sa.sa_handler)
      × ((setup_frame sig sa c blocked).stack esp_index + 88 ≡ c.stack esp_index)
      × ((setup_frame sig sa c blocked).memory ((setup_frame sig sa c blocked).stack esp_index)
          ≡ sa.sa_restorer)
      × ((setup_frame sig sa c blocked).memory ((setup_frame sig sa c blocked).stack esp_index + 4)
          ≡ sig)
      × ((a : ℕ) → c.stack esp_index ≤ a → (setup_frame sig sa c blocked).memory a ≡ c.memory a)
unfolding setup_frame
setup_frame-entry sig sa c blocked room word = (
  refl,
  omega arith,
  ground arith,
  ground arith,
  λ a h.
      ground (arith, save_words-above 19 c.stack c.memory (sub32 (c.stack esp_index) 88 + 12) 0 a),
)

-- A handler that returns brings back the process as it was: `sys_sigreturn`, called by the restorer
-- with the stack pointer one word above the start of the frame, and with the words from there up to the
-- old stack pointer as `setup_frame` left them, restores every register and the mask of blocked signals.
pub sys_sigreturn-setup_frame :
    (sig : ℕ) (sa : SigAction) (c : Context) (blocked : ℕ) (t : Task) (after : Context)
    → 0x2000 ≤ c.stack esp_index
    → c.stack esp_index < 2 ^ 32
    → after.stack esp_index ≡ (setup_frame sig sa c blocked).stack esp_index + 4
    → ((a : ℕ)
        → after.stack esp_index < a
        → a < c.stack esp_index
        → after.memory a ≡ (setup_frame sig sa c blocked).memory a)
    → (t' : Task) × (c' : Context) × (sys_sigreturn t after ≡ some (t', c'))
      × (t'.blocked ≡ blocked)
      × (t'.signal ≡ t.signal)
      × ((i : ℕ) → i < 19 → c'.stack i ≡ c.stack i)
unfolding sys_sigreturn
sys_sigreturn-setup_frame sig sa c blocked t after room word top same = (
  record t { blocked = after.memory (after.stack esp_index + 4) },
  record after { stack = λ i. after.memory (after.stack esp_index + 8 + 4 * i) },
  (rw valid refl),
  same (after.stack esp_index + 4) (omega arith) (omega (arith, top, entry))
      ∙ (ap (setup_frame sig sa c blocked).memory (omega (arith, top, entry))
          ∙ saved_blocked sig sa c blocked (omega arith) word),
  refl,
  λ i lt.
      same (after.stack esp_index + 8 + 4 * i) (omega arith) (omega (arith, top, entry, lt))
      ∙ (ap (setup_frame sig sa c blocked).memory (omega (arith, top, entry))
          ∙ saved_register sig sa c blocked (omega arith) word i lt),
)
  where
    entry : (setup_frame sig sa c blocked).stack esp_index + 88 ≡ c.stack esp_index
    entry = (setup_frame-entry sig sa c blocked (omega arith) word).1

    valid : ltb (after.stack esp_index + 8) 0x1000 ≡ false
    valid = ground (arith, top, entry)
