-- ===== src/IoQueue/Tests.antt =====
-- The theorems on I/O queues at a queue that goes round the end of its buffer.
use magic_box.Prelude.{◌≡◌, refl, none, some, [], ◌∷◌, arith}
use magic_box.IoQueue.{IoQueue, ioq_put_raw, ioq_get_raw, ioq_length}
use magic_box.IoQueue.Window.{IsValid, contents, window}
use magic_box.IoQueue.Refine.{PutOk, GetOk, put_raw-PutOk, get_raw-GetOk}

-- Three characters, and a task that waits for room.
abbrev round_the_end : IoQueue
round_the_end = record { producer = some 7; consumer = none; buf = λ i. i; head = 1; tail = 2046 }

round_the_end-IsValid : IsValid round_the_end
round_the_end-IsValid = omega arith

three_held : contents round_the_end ≡ 2046 ∷ 2047 ∷ 0 ∷ []
unfolding ioq_length window
three_held = refl

put_raw-PutOk_example : PutOk round_the_end 97 (ioq_put_raw round_the_end 97)
put_raw-PutOk_example = put_raw-PutOk round_the_end 97 round_the_end-IsValid

get_raw-GetOk_example : GetOk round_the_end (ioq_get_raw round_the_end)
get_raw-GetOk_example = get_raw-GetOk round_the_end round_the_end-IsValid
