-- ===== src/IoQueue/Refine.antt =====
-- The operations of device/ioqueue.c behave as those of a bounded first-in first-out queue.
use magic_box.Prelude.{
  ℕ, suc, ◌<◌, ◌≤◌, ◌≡◌, ◌≢◌, refl, ap, sym, true, false, ◌==◌, if◌then◌else◌, List, [], ◌∷◌, ◌++◌,
  length, arith, none, some, Bool-cases, inl, inr, lt→ltb,
}
use magic_box.IoQueue.{
  IoQueue, Outcome, returns, sleeps, assert_failed, update, next_pos, prev_pos, woken, ioq_length,
  ioq_empty, ioq_full, ioq_get_raw, ioq_put_raw, ioq_last_char, ioq_popchar,
}
use magic_box.IoQueue.Queue
use magic_box.IoQueue.Queue.{last, unpush}
use magic_box.IoQueue.Window.{
  IsValid, window, contents, length-contents, window-snoc, window-update, last-snoc, unpush-snoc,
  head_lem,
}

-- The tests of the code read the length.
pub full_lem : {q : IoQueue} → IsValid q → ioq_full q ≡ (ioq_length q == 2047)
unfolding ioq_full ioq_length
full_lem v = ground arith

pub empty_lem : {q : IoQueue} → IsValid q → ioq_empty q ≡ (ioq_length q == 0)
unfolding ioq_empty ioq_length
empty_lem v = ground arith

module _ (q : IoQueue) (v : IsValid q) where
  abbrev after_put : ℕ → IoQueue
  after_put byte = record q {
    buf = update q.buf q.head byte;
    head = next_pos q.head;
    consumer = none;
  }

  abbrev after_get : IoQueue
  after_get = record q { tail = next_pos q.tail; producer = none }

  abbrev after_unput : IoQueue
  after_unput = record q { head = prev_pos q.head; producer = none }

  length-put : (byte : ℕ) → ioq_length q < 2047 → ioq_length (after_put byte) ≡ suc (ioq_length q)
  unfolding ioq_length
  length-put byte room = ground arith

  length-get : 0 < ioq_length q → ioq_length q ≡ suc (ioq_length after_get)
  unfolding ioq_length
  length-get h = ground arith

  length-unput : 0 < ioq_length q → ioq_length q ≡ suc (ioq_length after_unput)
  unfolding ioq_length
  length-unput h = ground arith

  -- Writing at `head` adds the character at the end.
  pub contents-put :
      (byte : ℕ) → ioq_length q < 2047 → contents (after_put byte) ≡ contents q ++ (byte ∷ [])
  contents-put byte room =
      let here = head_lem v in
      rw
        (
          length-put byte room,
          window-snoc (update q.buf q.head byte) q.tail (ioq_length q) q.head v.tail_in here.0,
          window-update q.buf q.tail (ioq_length q) 0 q.head byte v.tail_in (omega (arith, room))
              (omega (arith, here.0)),
        )
        (ground arith)

  -- Reading at `tail` takes the character at the front.
  pub contents-get : 0 < ioq_length q → contents q ≡ q.buf q.tail ∷ contents after_get
  unfolding window
  contents-get h = rw (length-get h)

  -- Stepping `head` back takes the character at the end.
  pub contents-unput :
      0 < ioq_length q → contents q ≡ contents after_unput ++ (q.buf (prev_pos q.head) ∷ [])
  contents-unput h =
      let here = head_lem v in
      rw
        (
          length-unput h,
          window-snoc q.buf q.tail (ioq_length after_unput) (prev_pos q.head) v.tail_in
              (omega (arith, here.0, here.1, length-unput h)),
        )
        refl

pub window_nil : (q : IoQueue) → ioq_length q ≡ 0 → contents q ≡ []
unfolding window
window_nil q e = rw e

-- What `ioq_put_raw` must do to the characters of a queue.
abbrev pub PutOk : IoQueue → ℕ → Outcome (Unit {0}) → Type 0
PutOk q byte (returns q' _ ready) =
    IsValid q'
    × (Queue.push (contents q) byte ≡ some (contents q'))
    × (ready ≡ woken q.consumer)
    × (q'.consumer ≡ none)
    × (q'.producer ≡ q.producer)
PutOk q byte (sleeps q') = ⊥
PutOk q byte assert_failed = Queue.push (contents q) byte ≡ none

abbrev pub GetOk : IoQueue → Outcome ℕ → Type 0
GetOk q (returns q' byte ready) =
    IsValid q'
    × (Queue.pop (contents q) ≡ some (byte, contents q'))
    × (ready ≡ woken q.producer)
    × (q'.producer ≡ none)
    × (q'.consumer ≡ q.consumer)
GetOk q (sleeps q') = ⊥
GetOk q assert_failed = Queue.pop (contents q) ≡ none

-- On a valid queue `ioq_put_raw` appends the character if fewer than 2047 are held, keeps the
-- queue valid and wakes the waiting consumer, if there is one; it fails its assertion exactly when
-- the queue is full.
pub put_raw-PutOk : (q : IoQueue) (byte : ℕ) → IsValid q → PutOk q byte (ioq_put_raw q byte)
unfolding ioq_put_raw Queue.push
put_raw-PutOk q byte v = elim (Bool-cases (ioq_full q)) [
  | inl full ↦
      let n : ioq_length q ≡ 2047 = ground (arith, full_lem v) in rw (full, length-contents q, n)
  | inr room ↦
      let n : ioq_length q < 2047 = ground (arith, full_lem v, head_lem v) in
      rw (room, length-contents q, lt→ltb _ _ n, contents-put q v byte n)
        (omega arith, refl, refl, refl, refl)
]

-- On a valid queue `ioq_get_raw` takes the oldest character, keeps the queue valid and wakes the
-- waiting producer, if there is one; it fails its assertion exactly when the queue is empty.
pub get_raw-GetOk : (q : IoQueue) → IsValid q → GetOk q (ioq_get_raw q)
unfolding ioq_get_raw Queue.pop
get_raw-GetOk q v = elim (Bool-cases (ioq_empty q)) [
  | inl none_left ↦
      let n : ioq_length q ≡ 0 = ground (arith, empty_lem v) in rw (none_left, window_nil q n)
  | inr some_left ↦
      let n : 0 < ioq_length q = ground (arith, empty_lem v) in
      rw (some_left, contents-get q v n) (omega arith, refl, refl, refl, refl)
]

nil_last : 0 ≡ last []
unfolding last
nil_last = refl

nil_unpush : [] ≡ unpush []
unfolding unpush
nil_unpush = refl

-- On a valid queue `ioq_last_char` is the newest character, 0 in an empty queue, and `ioq_popchar`
-- removes just that one, keeps the queue valid, and wakes the waiting producer exactly when there
-- was a character to remove.
pub popchar_refines :
    (q : IoQueue)
    → IsValid q
    → (ioq_last_char q ≡ last (contents q))
      × (contents (ioq_popchar q).0 ≡ unpush (contents q))
      × IsValid (ioq_popchar q).0
      × ((ioq_popchar q).1 ≡ (if ioq_empty q then [] else woken q.producer))
unfolding ioq_last_char ioq_popchar
popchar_refines q v = elim (Bool-cases (ioq_empty q)) [
  | inl none_left ↦
      let n : ioq_length q ≡ 0 = ground (arith, empty_lem v) in
      rw (none_left, window_nil q n) (nil_last, nil_unpush, v, refl)
  | inr some_left ↦
      let n : 0 < ioq_length q = ground (arith, empty_lem v) in
      let split = contents-unput q v n in
      rw (some_left, split) (sym (last-snoc _ _), sym (unpush-snoc _ _), omega arith, refl)
]

pub pop_cons : {xs ys : List ℕ} {x : ℕ} → Queue.pop xs ≡ some (x, ys) → xs ≡ x ∷ ys
unfolding Queue.pop
pop_cons {xs = []} h = cc
pop_cons {xs = y ∷ xs} h = cc

pub pop-none : {xs : List ℕ} → Queue.pop xs ≡ none → xs ≡ []
unfolding Queue.pop
pop-none {xs = []} h = refl
pop-none {xs = y ∷ xs} h = cc

pub empty_nil : (q : IoQueue) → IsValid q → ioq_empty q ≡ true → contents q ≡ []
empty_nil q v e = window_nil q (ground (arith, empty_lem v))

pub nonempty_cons : (q : IoQueue) → IsValid q → ioq_empty q ≡ false → contents q ≢ []
nonempty_cons q v e nil = ground (arith, empty_lem v, length-contents q, ap (length {0}) nil)

pub push_snoc :
    (xs : List ℕ) (x : ℕ) {ys : List ℕ} → Queue.push xs x ≡ some ys → ys ≡ xs ++ (x ∷ [])
unfolding Queue.push
push_snoc xs x h = ground arith

pub push-none : (xs : List ℕ) (x : ℕ) → Queue.push xs x ≡ none → 2047 ≤ length xs
unfolding Queue.push
push-none xs x h = ground arith

pub full_length : (q : IoQueue) → IsValid q → ioq_full q ≡ true → length (contents q) ≡ 2047
full_length q v e = ground (arith, full_lem v, length-contents q)

pub room_length : (q : IoQueue) → IsValid q → ioq_full q ≡ false → length (contents q) < 2047
room_length q v e = ground (arith, full_lem v, length-contents q, head_lem v)
