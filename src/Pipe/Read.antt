-- ===== src/Pipe/Read.antt =====
-- `pipe_read` of fs/pipe.c.
use magic_box.Prelude.{
  ℕ, zero, suc, ◌+◌, ◌<◌, ◌≡◌, ◌≢◌, ◌⊎◌, inl, inr, refl, ap, sym, ◌∙◌, true, false, ltb, ◌==◌,
  if◌then◌else◌, List, [], ◌∷◌, ◌++◌, length, arith, Option, none, some, Bool-cases, min, ◌||◌,
}
use magic_box.IoQueue.{
  Outcome, returns, sleeps, assert_failed, Task, ioq_empty, ioq_get_raw, wait_consumer,
}
use magic_box.IoQueue.Window.{IsValid, contents}
use magic_box.IoQueue.Refine.{get_raw-GetOk, GetOk, pop_cons, pop-none, empty_nil, nonempty_cons}
use magic_box.Pipe.{
  Pipe, ReadRound, received, read_breaks, read_sleeps, read_asserts, read_round, ReadResult,
  read_returns, read_waits, read_panics, prepend, read_loop, pipe_read,
}

abbrev pub held : Pipe → List ℕ
held p = contents p.queue

-- What one round of `pipe_read` does, by its outcome.
abbrev pub RoundOk : Pipe → Task → ℕ → ReadRound → Type 0
RoundOk p me n (received p' byte ready) =
    (held p ≡ byte ∷ held p')
    × IsValid p'.queue
    × (p'.reader_count ≡ p.reader_count)
    × (p'.writer_count ≡ p.writer_count)
RoundOk p me n read_breaks = (held p ≡ []) × ((0 < n) ⊎ (p.writer_count ≡ 0))
RoundOk p me n (read_sleeps p') =
    (held p ≡ [])
    × (n ≡ 0)
    × (p.writer_count ≢ 0)
    × (p.queue.consumer ≡ none)
    × (p' ≡ record p { queue = record p.queue { consumer = some me } })
RoundOk p me n read_asserts =
    (held p ≡ []) × (n ≡ 0) × (p.writer_count ≢ 0) × (p.queue.consumer ≢ none)

-- The branch that takes a byte.
abbrev taken : Pipe → Outcome ℕ → ReadRound
taken p o = elim o [
  | returns q byte ready ↦ received (record p { queue = q }) byte ready
  | sleeps q ↦ read_asserts
  | assert_failed ↦ read_asserts
]

taken-RoundOk :
    (p : Pipe) (me : Task) (n : ℕ) (o : Outcome ℕ)
    → GetOk p.queue o
    → held p ≢ []
    → RoundOk p me n (taken p o)
taken-RoundOk p me n (returns q byte ready) g some_left = (pop_cons g.1, g.0, refl, refl)
taken-RoundOk p me n (sleeps q) g some_left = absurd g
taken-RoundOk p me n assert_failed g some_left = absurd (some_left (pop-none g))

-- The branch of an empty queue.
abbrev idle : Pipe → Task → ℕ → Option Task → ReadRound
idle p me n waiter = if ltb 0 n || p.writer_count == 0 then read_breaks else elim waiter [
  | none ↦ read_sleeps (record p { queue = record p.queue { consumer = some me } })
  | some t ↦ read_asserts
]

idle-RoundOk :
    (p : Pipe) (me : Task) (n : ℕ) (waiter : Option Task)
    → p.queue.consumer ≡ waiter
    → held p ≡ []
    → RoundOk p me n (idle p me n waiter)
idle-RoundOk p me n none e nil = elim (Bool-cases (ltb 0 n || p.writer_count == 0)) [
  | inl ends ↦ rw ends (nil, ground arith)
  | inr waits ↦ rw waits (nil, ground arith, ground arith, e, refl)
]
idle-RoundOk p me n (some t) e nil = elim (Bool-cases (ltb 0 n || p.writer_count == 0)) [
  | inl ends ↦ rw ends (nil, ground arith)
  | inr waits ↦ rw waits (nil, ground arith, ground arith, λ e'. cc)
]

round_empty :
    (p : Pipe) (me : Task) (n : ℕ)
    → ioq_empty p.queue ≡ true
    → read_round p me n ≡ idle p me n p.queue.consumer
unfolding read_round wait_consumer
round_empty p me n e = ground arith

round_some :
    (p : Pipe) (me : Task) (n : ℕ)
    → ioq_empty p.queue ≡ false
    → read_round p me n ≡ taken p (ioq_get_raw p.queue)
unfolding read_round
round_some p me n e = rw e

pub read_round-RoundOk :
    (p : Pipe) (me : Task) (n : ℕ) → IsValid p.queue → RoundOk p me n (read_round p me n)
read_round-RoundOk p me n v = elim (Bool-cases (ioq_empty p.queue)) [
  | inl none_left ↦
      rw (round_empty p me n none_left)
        (idle-RoundOk p me n p.queue.consumer refl (empty_nil p.queue v none_left))
  | inr some_left ↦ rw (round_some p me n some_left) (
      taken-RoundOk p me n (ioq_get_raw p.queue) (get_raw-GetOk p.queue v)
        (nonempty_cons p.queue v some_left))
]

-- What a run of `left` more rounds comes to, after `n` bytes.
abbrev pub ReadOk : ℕ → Pipe → Task → ℕ → ReadResult → Type 0
ReadOk left p me n (read_returns p' bytes ready) =
    (bytes ++ held p' ≡ held p)
    × IsValid p'.queue
    × (p'.reader_count ≡ p.reader_count)
    × (p'.writer_count ≡ p.writer_count)
    × (length bytes ≡ min left (length (held p)))
    × ((0 < n) ⊎ (0 < length bytes) ⊎ (left ≡ 0) ⊎ (p.writer_count ≡ 0))
ReadOk left p me n (read_waits p' bytes ready) =
    (bytes ≡ [])
    × (held p ≡ [])
    × (n ≡ 0)
    × (0 < left)
    × (p.writer_count ≢ 0)
    × (p.queue.consumer ≡ none)
    × (p' ≡ record p { queue = record p.queue { consumer = some me } })
ReadOk left p me n read_panics =
    (held p ≡ []) × (n ≡ 0) × (0 < left) × (p.writer_count ≢ 0) × (p.queue.consumer ≢ none)

prepend-ReadOk :
    (left : ℕ) (p p' : Pipe) (me : Task) (n byte : ℕ) (ready : List Task) (r : ReadResult)
    → RoundOk p me n (received p' byte ready)
    → ReadOk left p' me (n + 1) r
    → ReadOk (suc left) p me n (prepend byte ready r)
prepend-ReadOk left p p' me n byte ready (read_returns q bytes later) round ok = (
  ap (λ xs. byte ∷ xs) ok.0 ∙ sym round.0,
  ok.1,
  ok.2 ∙ round.2,
  ok.3 ∙ round.3,
  omega (arith, ok.4, ap length round.0),
  inr (inl (omega arith)),
)
prepend-ReadOk left p p' me n byte ready (read_waits q bytes later) round ok =
    absurd (omega (arith, ok.2))
prepend-ReadOk left p p' me n byte ready read_panics round ok = absurd (omega (arith, ok.1))

after_round :
    (left : ℕ) (p : Pipe) (me : Task) (n : ℕ) (r : ReadRound)
    → ((p' : Pipe) → IsValid p'.queue → ReadOk left p' me (n + 1) (read_loop left p' me (n + 1)))
    → RoundOk p me n r
    → IsValid p.queue
    → ReadOk (suc left) p me n (elim r [
      | received p' byte ready ↦ prepend byte ready (read_loop left p' me (n + 1))
      | read_breaks ↦ read_returns p [] []
      | read_sleeps p' ↦ read_waits p' [] []
      | read_asserts ↦ read_panics
    ])
after_round left p me n (received p' byte ready) ih ok v =
    prepend-ReadOk left p p' me n byte ready (read_loop left p' me (n + 1)) ok (ih p' ok.1)
after_round left p me n read_breaks ih ok v =
    (refl, v, refl, refl, omega (arith, ap (length {0}) ok.0), ended ok.1)
  where
    ended :
        (0 < n) ⊎ (p.writer_count ≡ 0) → (0 < n) ⊎ (0 < 0) ⊎ (suc left ≡ 0) ⊎ (p.writer_count ≡ 0)
    ended (inl some_read) = inl some_read
    ended (inr no_writer) = inr (inr (inr no_writer))
after_round left p me n (read_sleeps p') ih ok v = (refl, ok.0, ok.1, omega arith, ok.2, ok.3, ok.4)
after_round left p me n read_asserts ih ok v = (ok.0, ok.1, omega arith, ok.2, ok.3)

read_loop-ReadOk :
    (left : ℕ) (p : Pipe) (me : Task) (n : ℕ)
    → IsValid p.queue
    → ReadOk left p me n (read_loop left p me n)
unfolding read_loop
read_loop-ReadOk zero p me n v = (refl, v, refl, refl, omega arith, inr (inr (inl refl)))
read_loop-ReadOk (suc left) p me n v =
    after_round left p me n (read_round p me n) (λ p' v'. read_loop-ReadOk left p' me (n + 1) v')
      (read_round-RoundOk p me n v) v

-- `pipe_read` of `count` bytes on a valid pipe, run to its end or to its first sleep. It returns the
-- oldest bytes of the pipe, as many as asked for or as there are, and leaves the rest; it returns no
-- byte only if none was asked for or no writer is left. It sleeps, with nothing read, only on an
-- empty pipe that has a writer and no other sleeping reader; where there is such a reader it fails
-- an assertion.
pub pipe_read-ReadOk :
    (p : Pipe) (me : Task) (count : ℕ)
    → IsValid p.queue
    → ReadOk count p me 0 (pipe_read p me count)
unfolding pipe_read
pipe_read-ReadOk p me count v = read_loop-ReadOk count p me 0 v

both : {o : Option Task} {t : Task} → o ≡ some t → o ≡ none → ⊥
both e e' = cc

-- A second reader of an empty pipe that has a writer: `ioq_wait` fails its assertion, whatever the
-- task that already sleeps there.
pub second_reader_panics :
    (p : Pipe) (me other : Task) (count : ℕ)
    → IsValid p.queue
    → held p ≡ []
    → p.writer_count ≢ 0
    → p.queue.consumer ≡ some other
    → 0 < count
    → pipe_read p me count ≡ read_panics
second_reader_panics p me other count v nil writers asleep pos =
    decide (pipe_read p me count) (pipe_read-ReadOk p me count v)
  where
    decide : (r : ReadResult) → ReadOk count p me 0 r → r ≡ read_panics
    decide (read_returns p' bytes ready) ok =
        absurd (omega (arith, ok.4, ok.5, ap (length {0}) nil))
    decide (read_waits p' bytes ready) ok = absurd (both asleep ok.5)
    decide read_panics ok = refl
