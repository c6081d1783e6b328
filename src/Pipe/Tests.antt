-- ===== src/Pipe/Tests.antt =====
-- The theorems on pipes at small pipes.
use magic_box.Prelude.{◌+◌, ◌≡◌, refl, none, some, [], ◌∷◌, arith}
use magic_box.IoQueue.{update, ioq_length, ioq_full, ioq_put_raw, ioq_empty, ioq_get_raw}
use magic_box.IoQueue.Window.{IsValid, window}
use magic_box.Pipe.{
  Pipe, pipe_read, pipe_write, pipe_release, read_panics, write_round, stored, read_round, received,
  o_rdwr,
}
use magic_box.Pipe.Read.{ReadOk, pipe_read-ReadOk, second_reader_panics, held}
use magic_box.Pipe.Write.{WriteOk, pipe_write-WriteOk}
use magic_box.Pipe.Stream.{System, Reach, here, next, writes, reads, IsStream, Reach-IsStream}
use magic_box.Pipe.Fifo.{open_counts, release-open_rdwr}

abbrev fresh : Pipe
fresh = record {
  queue = record { producer = none; consumer = none; buf = λ i. 0; head = 0; tail = 0 };
  reader_count = 1;
  writer_count = 1;
}

-- Two bytes, 104 and 105.
abbrev two_bytes : Pipe
two_bytes = record fresh {
  queue = record { producer = none; consumer = none; buf = λ i. i + 104; head = 2; tail = 0 };
}

-- Task 4 sleeps in a read.
abbrev reader_asleep : Pipe
reader_asleep = record fresh {
  queue = record { producer = none; consumer = some 4; buf = λ i. 0; head = 0; tail = 0 };
}

fresh-IsValid : IsValid fresh.queue
fresh-IsValid = omega arith

two_bytes-IsValid : IsValid two_bytes.queue
two_bytes-IsValid = omega arith

reader_asleep-IsValid : IsValid reader_asleep.queue
reader_asleep-IsValid = omega arith

nothing_held : held reader_asleep ≡ []
unfolding ioq_length window
nothing_held = refl

pipe_read-ReadOk_example : ReadOk 5 two_bytes 3 0 (pipe_read two_bytes 3 5)
pipe_read-ReadOk_example = pipe_read-ReadOk two_bytes 3 5 two_bytes-IsValid

pipe_write-WriteOk_example :
    WriteOk (104 ∷ 105 ∷ []) fresh 3 0 (pipe_write fresh 3 (104 ∷ 105 ∷ []))
pipe_write-WriteOk_example = pipe_write-WriteOk fresh 3 (104 ∷ 105 ∷ []) fresh-IsValid

second_reader_panics_example : pipe_read reader_asleep 3 1 ≡ read_panics
second_reader_panics_example =
    second_reader_panics reader_asleep 3 4 1 reader_asleep-IsValid nothing_held (omega arith) refl
      (omega arith)

-- A writer stores a byte, and a reader takes it.
abbrev start : System
start = record { pipe = fresh; sent = []; taken = [] }

abbrev one_byte : Pipe
one_byte = record fresh {
  queue = record {
    producer = none;
    consumer = none;
    buf = update (λ i. 0) 0 104;
    head = 1;
    tail = 0;
  };
}

abbrev taken_back : Pipe
taken_back = record one_byte {
  queue = record {
    producer = none;
    consumer = none;
    buf = update (λ i. 0) 0 104;
    head = 1;
    tail = 1;
  };
}

start-IsStream : IsStream start
unfolding ioq_length window
start-IsStream = record { valid = fresh-IsValid; in_order = refl }

writes_one : write_round fresh 3 104 ≡ stored one_byte []
unfolding write_round ioq_full ioq_put_raw
writes_one = refl

reads_one : read_round one_byte 4 0 ≡ received taken_back 104 []
unfolding read_round ioq_empty ioq_get_raw
reads_one = refl

one_passed : Reach start (record { pipe = taken_back; sent = 104 ∷ []; taken = 104 ∷ [] })
one_passed =
    next (next here (writes 3 104 one_byte [] writes_one)) (reads 4 0 104 taken_back [] reads_one)

Reach-IsStream_example : IsStream (record { pipe = taken_back; sent = 104 ∷ []; taken = 104 ∷ [] })
Reach-IsStream_example = Reach-IsStream one_passed start-IsStream

release-open_rdwr_example :
    ((pipe_release (open_counts fresh o_rdwr) o_rdwr).0.reader_count ≡ 2)
    × ((pipe_release (open_counts fresh o_rdwr) o_rdwr).0.writer_count ≡ 2)
release-open_rdwr_example = release-open_rdwr fresh (omega arith) (omega arith)
