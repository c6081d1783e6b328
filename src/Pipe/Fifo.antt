-- ===== src/Pipe/Fifo.antt =====
-- fs/fifo.c: opening a named pipe, and the counts that opening and closing keep.
use magic_box.Prelude.{
  ℕ, ◌+◌, ◌^◌, ◌<◌, ◌≡◌, ◌⊎◌, inl, inr, refl, not, ◌==◌, ◌||◌, if◌then◌else◌, List, arith, Option,
  none, some,
}
use magic_box.IoQueue.{returns, sleeps, assert_failed, Task, woken, wait_consumer, wait_producer}
use magic_box.Pipe.{Pipe, o_rdonly, o_wronly, o_rdwr, has_flag, incr, init_pipe, pipe_release}

-- The counts that `fifo_open` updates before it waits; none where the buffer cannot be had.
unfoldable pub open_counts : Pipe → ℕ → Pipe
open_counts p fd_flag = record p {
  writer_count =
      if has_flag fd_flag o_wronly || has_flag fd_flag o_rdwr
      then incr p.writer_count
      else p.writer_count;
  reader_count =
      if not (has_flag fd_flag o_wronly) || has_flag fd_flag o_rdwr
      then incr p.reader_count
      else p.reader_count;
}

pub data OpenRound : Type 0 where
  opened : Pipe → List Task → OpenRound
  open_sleeps : Pipe → List Task → OpenRound
  open_asserts : OpenRound

-- One round of the waiting loop of `fifo_open`, by the task `me`.
unfoldable pub open_round : Pipe → ℕ → Task → OpenRound
open_round p fd_flag me =
    let wake_consumer = record p { queue = record p.queue { consumer = none } } in
    let wake_producer = record p { queue = record p.queue { producer = none } } in
    if has_flag fd_flag o_wronly
    then (if p.reader_count == 0
        then elim (wait_producer {A = Unit {0}} wake_consumer.queue me) [
          | returns q _ ready ↦ open_asserts
          | sleeps q ↦ open_sleeps (record p { queue = q }) (woken p.queue.consumer)
          | assert_failed ↦ open_asserts
        ]
        else opened wake_consumer (woken p.queue.consumer))
    else (if p.writer_count == 0
        then elim (wait_consumer {A = Unit {0}} wake_producer.queue me) [
          | returns q _ ready ↦ open_asserts
          | sleeps q ↦ open_sleeps (record p { queue = q }) (woken p.queue.producer)
          | assert_failed ↦ open_asserts
        ]
        else opened wake_producer (woken p.queue.producer))

-- What `fifo_open` does up to its loop: the buffer, then the counts.
unfoldable pub fifo_start : Option Pipe → Option (ℕ → ℕ) → ℕ → Option Pipe
fifo_start pii page fd_flag = elim (init_pipe pii page) [
  | none ↦ none
  | some p ↦ some (open_counts p fd_flag)
]

-- Closing undoes the counts of an open for reading or for writing.
pub release-open_counts :
    (p : Pipe) (fd_flag : ℕ)
    → (fd_flag ≡ o_rdonly) ⊎ (fd_flag ≡ o_wronly)
    → p.reader_count < 2 ^ 32
    → p.writer_count < 2 ^ 32
    → ((pipe_release (open_counts p fd_flag) fd_flag).0.reader_count ≡ p.reader_count)
      × ((pipe_release (open_counts p fd_flag) fd_flag).0.writer_count ≡ p.writer_count)
unfolding pipe_release open_counts
release-open_counts p fd_flag (inl e) r w = rw e (omega arith, refl)
release-open_counts p fd_flag (inr e) r w = rw e (refl, omega arith)

-- A named pipe that is opened for reading and writing counts one reader and one writer more, and
-- closing takes neither back.
pub release-open_rdwr :
    (p : Pipe)
    → p.reader_count + 1 < 2 ^ 32
    → p.writer_count + 1 < 2 ^ 32
    → ((pipe_release (open_counts p o_rdwr) o_rdwr).0.reader_count ≡ p.reader_count + 1)
      × ((pipe_release (open_counts p o_rdwr) o_rdwr).0.writer_count ≡ p.writer_count + 1)
unfolding pipe_release open_counts
release-open_rdwr p r w = (omega arith, omega arith)
