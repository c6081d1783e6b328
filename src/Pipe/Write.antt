-- ===== src/Pipe/Write.antt =====
-- `pipe_write` of fs/pipe.c.
use mathlib.Core.List.{append-nil, append_assoc}
use magic_box.Prelude.{
  ℕ, ◌+◌, ◌<◌, ◌≡◌, ◌≢◌, ◌⊎◌, inl, inr, refl, ap, sym, subst, ◌∙◌, true, false, ◌==◌, List, [], ◌∷◌,
  ◌++◌, length, arith, Option, none, some, Bool-cases, length-append,
}
use magic_box.IoQueue.{
  Outcome, returns, sleeps, assert_failed, Task, ioq_full, ioq_put_raw, wait_producer,
}
use magic_box.IoQueue.Window.{IsValid, contents_waiters}
use magic_box.IoQueue.Refine.{put_raw-PutOk, PutOk, push_snoc, push-none, full_length, room_length}
use magic_box.Pipe.{
  Pipe, WriteRound, sigpipe, stored, no_reader, write_sleeps, write_asserts, write_round,
  WriteResult, write_returns, write_epipe, write_waits, write_panics, after, write_loop, pipe_write,
}
use magic_box.Pipe.Read.{held}

-- What one round of `pipe_write` does, by its outcome.
abbrev pub RoundOk : Pipe → Task → ℕ → WriteRound → Type 0
RoundOk p me byte (stored p' ready) =
    (held p' ≡ held p ++ (byte ∷ []))
    × IsValid p'.queue
    × (p'.reader_count ≡ p.reader_count)
    × (p'.writer_count ≡ p.writer_count)
    × (p'.queue.producer ≡ p.queue.producer)
    × (p.reader_count ≢ 0)
RoundOk p me byte (no_reader signal) = (p.reader_count ≡ 0) × (signal ≡ sigpipe)
RoundOk p me byte (write_sleeps p') =
    (length (held p) ≡ 2047)
    × (p.reader_count ≢ 0)
    × (p.queue.producer ≡ none)
    × (p' ≡ record p { queue = record p.queue { producer = some me } })
RoundOk p me byte write_asserts =
    (length (held p) ≡ 2047) × (p.reader_count ≢ 0) × (p.queue.producer ≢ none)

-- The two branches of a round that has a reader.
abbrev put : Pipe → Outcome (Unit {0}) → WriteRound
put p o = elim o [
  | returns q _ ready ↦ stored (record p { queue = q }) ready
  | sleeps q ↦ write_asserts
  | assert_failed ↦ write_asserts
]

abbrev blocked : Pipe → Task → Option Task → WriteRound
blocked p me waiter = elim waiter [
  | none ↦ write_sleeps (record p { queue = record p.queue { producer = some me } })
  | some t ↦ write_asserts
]

module _ (p : Pipe) (me : Task) (byte : ℕ) where
  round_broken : p.reader_count ≡ 0 → write_round p me byte ≡ no_reader sigpipe
  unfolding write_round
  round_broken e = ground arith

  round_full :
      p.reader_count ≢ 0
      → ioq_full p.queue ≡ true
      → write_round p me byte ≡ blocked p me p.queue.producer
  unfolding write_round wait_producer
  round_full readers e = ground arith

  round_room :
      p.reader_count ≢ 0
      → ioq_full p.queue ≡ false
      → write_round p me byte ≡ put p (ioq_put_raw p.queue byte)
  unfolding write_round
  round_room readers e = ground arith

  put-RoundOk :
      (o : Outcome (Unit {0}))
      → PutOk p.queue byte o
      → length (held p) < 2047
      → p.reader_count ≢ 0
      → RoundOk p me byte (put p o)
  put-RoundOk (returns q _ ready) ok room readers =
      (push_snoc (held p) byte ok.1, ok.0, refl, refl, ok.4, readers)
  put-RoundOk (sleeps q) ok room readers = absurd ok
  put-RoundOk assert_failed ok room readers = absurd (omega (arith, push-none (held p) byte ok))

  blocked-RoundOk :
      (waiter : Option Task)
      → p.queue.producer ≡ waiter
      → length (held p) ≡ 2047
      → p.reader_count ≢ 0
      → RoundOk p me byte (blocked p me waiter)
  blocked-RoundOk none e full readers = (full, readers, e, refl)
  blocked-RoundOk (some t) e full readers = (full, readers, λ e'. cc)

pub write_round-RoundOk :
    (p : Pipe) (me : Task) (byte : ℕ) → IsValid p.queue → RoundOk p me byte (write_round p me byte)
write_round-RoundOk p me byte v = elim (Bool-cases (p.reader_count == 0)) [
  | inl broken ↦ rw (round_broken p me byte (ground arith)) (ground arith, refl)
  | inr readers ↦ elim (Bool-cases (ioq_full p.queue)) [
    | inl full ↦ rw (round_full p me byte (ground arith) full) (
        blocked-RoundOk p me byte p.queue.producer refl (full_length p.queue v full) (ground arith))
    | inr room ↦ rw (round_room p me byte (ground arith) room) (
        put-RoundOk p me byte (ioq_put_raw p.queue byte) (put_raw-PutOk p.queue byte v)
          (room_length p.queue v room) (ground arith))
  ]
]

-- What a run of the loop over `bytes` comes to, after `n` bytes.
abbrev pub WriteOk : List ℕ → Pipe → Task → ℕ → WriteResult → Type 0
WriteOk bytes p me n (write_returns p' total ready) =
    (held p' ≡ held p ++ bytes)
    × IsValid p'.queue
    × (p'.reader_count ≡ p.reader_count)
    × (p'.writer_count ≡ p.writer_count)
    × (total ≡ n + length bytes)
    × ((bytes ≡ []) ⊎ (p.reader_count ≢ 0))
WriteOk bytes p me n (write_epipe p' signal) =
    (p' ≡ p) × (p.reader_count ≡ 0) × (bytes ≢ []) × (signal ≡ sigpipe)
WriteOk bytes p me n (write_waits p' rest ready) =
    ((sent : List ℕ) × (bytes ≡ sent ++ rest) × (held p' ≡ held p ++ sent))
    × (rest ≢ [])
    × (length (held p') ≡ 2047)
    × IsValid p'.queue
    × (p.reader_count ≢ 0)
    × (p.queue.producer ≡ none)
    × (p'.queue.producer ≡ some me)
WriteOk bytes p me n write_panics =
    (2047 < length (held p) + length bytes) × (p.reader_count ≢ 0) × (p.queue.producer ≢ none)

regroup :
    (p p' : Pipe) (byte : ℕ) (rest : List ℕ)
    → held p' ≡ held p ++ (byte ∷ [])
    → held p' ++ rest ≡ held p ++ (byte ∷ rest)
regroup p p' byte rest e = rw (e, append_assoc (held p) (byte ∷ []) rest)

after-WriteOk :
    (byte : ℕ) (rest : List ℕ) (p p' : Pipe) (me : Task) (n : ℕ) (ready : List Task)
    (r : WriteResult)
    → RoundOk p me byte (stored p' ready)
    → WriteOk rest p' me (n + 1) r
    → WriteOk (byte ∷ rest) p me n (after ready r)
after-WriteOk byte rest p p' me n ready (write_returns q total later) round ok = (
  ok.0 ∙ regroup p p' byte rest round.0,
  ok.1,
  ok.2 ∙ round.2,
  ok.3 ∙ round.3,
  omega (arith, ok.4),
  inr round.5,
)
after-WriteOk byte rest p p' me n ready (write_epipe q signal) round ok =
    absurd (round.5 (sym round.2 ∙ ok.1))
after-WriteOk byte rest p p' me n ready (write_waits q left later) round ok =
    let (sent, split, there) = ok.0 in
    (
      (byte ∷ sent, ap (λ xs. byte ∷ xs) split, there ∙ regroup p p' byte sent round.0),
      ok.1,
      ok.2,
      ok.3,
      round.5,
      sym round.4 ∙ ok.5,
      ok.6,
    )
after-WriteOk byte rest p p' me n ready write_panics round ok = (
  omega (arith, ok.0, ap (length {0}) round.0, length-append (held p) (byte ∷ [])),
  round.5,
  λ e. ok.2 (round.4 ∙ e),
)

write_loop-WriteOk :
    (bytes : List ℕ) (p : Pipe) (me : Task) (n : ℕ)
    → IsValid p.queue
    → WriteOk bytes p me n (write_loop bytes p me n)
unfolding write_loop
write_loop-WriteOk [] p me n v = (sym (append-nil (held p)), v, refl, refl, omega arith, inl refl)
write_loop-WriteOk (byte ∷ rest) p me n v =
    next (write_round p me byte) (write_round-RoundOk p me byte v)
      (λ p' v'. write_loop-WriteOk rest p' me (n + 1) v')
  where
    next :
        (r : WriteRound)
        → RoundOk p me byte r
        → ((p' : Pipe)
            → IsValid p'.queue
            → WriteOk rest p' me (n + 1) (write_loop rest p' me (n + 1)))
        → WriteOk (byte ∷ rest) p me n (elim r [
          | stored p' ready ↦ after ready (write_loop rest p' me (n + 1))
          | no_reader signal ↦ write_epipe p signal
          | write_sleeps p' ↦ write_waits p' (byte ∷ rest) []
          | write_asserts ↦ write_panics
        ])
    next (stored p' ready) ok ih =
        after-WriteOk byte rest p p' me n ready (write_loop rest p' me (n + 1)) ok (ih p' ok.1)
    next (no_reader signal) ok ih = (refl, ok.0, (λ e. cc), ok.1)
    next (write_sleeps p') ok ih =
        let same : held p' ≡ held p =
          ap held ok.3 ∙ contents_waiters p.queue (some me) p.queue.consumer in
        (
          ([], refl, same ∙ sym (append-nil (held p))),
          λ e. cc,
          ap (length {0}) same ∙ ok.0,
          subst (λ (r : Pipe). IsValid r.queue) (sym ok.3) (omega arith),
          ok.1,
          ok.2,
          ap (λ (r : Pipe). r.queue.producer) ok.3,
        )
    next write_asserts ok ih = (omega (arith, ok.0), ok.1, ok.2)

-- `pipe_write` on a valid pipe, run to its end or to its first sleep. It returns the number of the
-- bytes only after it has appended them all in order, and while there is a reader; with no reader
-- and a byte to write it sends SIGPIPE to the writer, returns -EPIPE and leaves the pipe as it was. It
-- sleeps only on a full pipe, with the
-- bytes before the rest appended, and no other writer asleep; it fails an assertion only where the
-- bytes do not fit and another writer sleeps.
pub pipe_write-WriteOk :
    (p : Pipe) (me : Task) (bytes : List ℕ)
    → IsValid p.queue
    → WriteOk bytes p me 0 (pipe_write p me bytes)
unfolding pipe_write
pipe_write-WriteOk p me bytes v = write_loop-WriteOk bytes p me 0 v
