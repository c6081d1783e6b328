-- ===== src/Pipe.antt =====
-- fs/pipe.c and fs/fifo.c with include/magicbox/pipe.h: anonymous pipes and named pipes on top of an
-- I/O queue. Each loop is split into its rounds, since the code turns interrupts on between two
-- rounds: a round moves one byte, ends the call, or puts the caller to sleep; a call that is woken
-- goes on with its next round.
pub mod Read
pub mod Write
pub mod Stream
pub mod Fifo
mod Tests
use magic_box.Prelude.{
  ℕ, ◌+◌, ◌-◌, ◌%◌, ◌^◌, Bool, true, false, ltb, ◌==◌, ◌&&◌, ◌||◌, not, if◌then◌else◌, Option, none,
  some, List, [], ◌∷◌, ◌++◌, bit_and,
}
use magic_box.IoQueue.{
  IoQueue, Outcome, returns, sleeps, assert_failed, Task, ioqueue_init, ioq_empty, ioq_full,
  ioq_get_raw, ioq_put_raw, wait_consumer, wait_producer, woken,
}

-- `struct pipe_inode_info` of a pipe that has its buffer.
pub record Pipe : Type 0 where
  pub queue : IoQueue
  pub reader_count : ℕ
  pub writer_count : ℕ

pub data ReadRound : Type 0 where
  received : Pipe → ℕ → List Task → ReadRound
  read_breaks : ReadRound
  read_sleeps : Pipe → ReadRound
  read_asserts : ReadRound

-- One round of the loop of `pipe_read`, by the task `me`.
unfoldable pub read_round : Pipe → Task → ℕ → ReadRound
read_round p me bytes_read =
    if not (ioq_empty p.queue)
    then elim (ioq_get_raw p.queue) [
      | returns q byte ready ↦ received (record p { queue = q }) byte ready
      | sleeps q ↦ read_asserts
      | assert_failed ↦ read_asserts
    ]
    else if ltb 0 bytes_read || p.writer_count == 0
    then read_breaks
    else elim (wait_consumer {A = ℕ} p.queue me) [
      | returns q byte ready ↦ read_asserts
      | sleeps q ↦ read_sleeps (record p { queue = q })
      | assert_failed ↦ read_asserts
    ]

-- What a run of `pipe_read` comes to if no other task runs meanwhile: the bytes that it stored in
-- the buffer, and the tasks that it woke.
pub data ReadResult : Type 0 where
  read_returns : Pipe → List ℕ → List Task → ReadResult
  read_waits : Pipe → List ℕ → List Task → ReadResult
  read_panics : ReadResult

abbrev pub prepend : ℕ → List Task → ReadResult → ReadResult
prepend byte ready (read_returns p bytes later) = read_returns p (byte ∷ bytes) (ready ++ later)
prepend byte ready (read_waits p bytes later) = read_waits p (byte ∷ bytes) (ready ++ later)
prepend byte ready read_panics = read_panics

-- The loop, by the bytes that are still wanted.
unfoldable pub read_loop : ℕ → Pipe → Task → ℕ → ReadResult
read_loop ℕ.zero p me bytes_read = read_returns p [] []
read_loop (ℕ.suc left) p me bytes_read = elim (read_round p me bytes_read) [
  | received p' byte ready ↦ prepend byte ready (read_loop left p' me (bytes_read + 1))
  | read_breaks ↦ read_returns p [] []
  | read_sleeps p' ↦ read_waits p' [] []
  | read_asserts ↦ read_panics
]

unfoldable pub pipe_read : Pipe → Task → ℕ → ReadResult
pipe_read p me count = read_loop count p me 0

abbrev pub sigpipe : ℕ
sigpipe = 13

pub data WriteRound : Type 0 where
  stored : Pipe → List Task → WriteRound
  -- A signal to the writer, by `send_signal`, and the result -EPIPE.
  no_reader : (signal : ℕ) → WriteRound
  write_sleeps : Pipe → WriteRound
  write_asserts : WriteRound

-- One round of the loop of `pipe_write`, with the next byte.
unfoldable pub write_round : Pipe → Task → ℕ → WriteRound
write_round p me byte =
    if p.reader_count == 0
    then no_reader sigpipe
    else if not (ioq_full p.queue)
    then elim (ioq_put_raw p.queue byte) [
      | returns q _ ready ↦ stored (record p { queue = q }) ready
      | sleeps q ↦ write_asserts
      | assert_failed ↦ write_asserts
    ]
    else elim (wait_producer {A = Unit {0}} p.queue me) [
      | returns q _ ready ↦ write_asserts
      | sleeps q ↦ write_sleeps (record p { queue = q })
      | assert_failed ↦ write_asserts
    ]

-- The end of a run of `pipe_write`: all bytes stored, -EPIPE with a signal to the writer, or asleep with some bytes to go.
pub data WriteResult : Type 0 where
  write_returns : Pipe → ℕ → List Task → WriteResult
  write_epipe : Pipe → (signal : ℕ) → WriteResult
  write_waits : Pipe → List ℕ → List Task → WriteResult
  write_panics : WriteResult

abbrev pub after : List Task → WriteResult → WriteResult
after ready (write_returns p n later) = write_returns p n (ready ++ later)
after ready (write_epipe p signal) = write_epipe p signal
after ready (write_waits p rest later) = write_waits p rest (ready ++ later)
after ready write_panics = write_panics

unfoldable pub write_loop : List ℕ → Pipe → Task → ℕ → WriteResult
write_loop [] p me bytes_written = write_returns p bytes_written []
write_loop (byte ∷ rest) p me bytes_written = elim (write_round p me byte) [
  | stored p' ready ↦ after ready (write_loop rest p' me (bytes_written + 1))
  | no_reader signal ↦ write_epipe p signal
  | write_sleeps p' ↦ write_waits p' (byte ∷ rest) []
  | write_asserts ↦ write_panics
]

unfoldable pub pipe_write : Pipe → Task → List ℕ → WriteResult
pipe_write p me bytes = write_loop bytes p me 0

abbrev pub o_rdonly : ℕ
o_rdonly = 1

abbrev pub o_wronly : ℕ
o_wronly = 2

abbrev pub o_rdwr : ℕ
o_rdwr = 4

abbrev pub has_flag : ℕ → ℕ → Bool
has_flag flags f = not (bit_and flags f == 0)

-- `uint32_t` counters.
abbrev pub incr : ℕ → ℕ
incr n = (n + 1) % 2 ^ 32

abbrev pub decr : ℕ → ℕ
decr n = (n + 2 ^ 32 - 1) % 2 ^ 32

-- The new state and the tasks that are made ready, the writer's side first.
unfoldable pub pipe_release : Pipe → ℕ → Pipe × List Task
pipe_release p fd_flag = (
  record {
    queue = record p.queue { producer = none; consumer = none };
    reader_count = if has_flag fd_flag o_rdonly then decr p.reader_count else p.reader_count;
    writer_count = if has_flag fd_flag o_wronly then decr p.writer_count else p.writer_count;
  },
  woken p.queue.producer ++ woken p.queue.consumer,
)

-- `inode->pipe_i`: none where `base` is NULL. `page` is what `get_kernel_pages` gives.
unfoldable pub init_pipe : Option Pipe → Option (ℕ → ℕ) → Option Pipe
init_pipe (some p) page = some p
init_pipe none none = none
init_pipe none (some memory) =
    some (record { queue = ioqueue_init memory; reader_count = 0; writer_count = 0 })
