-- ===== src/IoQueue/Window.antt =====
-- The characters between the two positions of an I/O queue, and how they change with the positions.
use magic_box.Prelude.{
  ℕ, zero, suc, ◌+◌, ◌%◌, ◌<◌, ◌≡◌, ◌≢◌, refl, ap, List, [], ◌∷◌, ◌++◌, length, arith, Option,
}
use magic_box.IoQueue.{IoQueue, bufsize, update, next_pos, ioq_length}
use magic_box.IoQueue.Queue.{last, unpush}

pub record IsValid (q : IoQueue) : Type 0 where
  pub head_in : q.head < bufsize
  pub tail_in : q.tail < bufsize

-- The `n` characters from index `h` on, going round at the end of the buffer.
unfoldable pub window : (ℕ → ℕ) → ℕ → ℕ → List ℕ
window buf h zero = []
window buf h (suc n) = buf h ∷ window buf (next_pos h) n

pub length-window : (buf : ℕ → ℕ) (h n : ℕ) → length (window buf h n) ≡ n
unfolding window
length-window buf h zero = refl
length-window buf h (suc n) = ap suc (length-window buf (next_pos h) n)

-- A character behind a window extends it.
pub window-snoc :
    (buf : ℕ → ℕ) (h n i : ℕ)
    → h < bufsize
    → i ≡ (h + n) % bufsize
    → window buf h (suc n) ≡ window buf h n ++ (buf i ∷ [])
unfolding window
window-snoc buf h zero i b e = let e' : i ≡ h = omega arith in rw e'
window-snoc buf h (suc n) i b e =
    ap (λ xs. buf h ∷ xs) (window-snoc buf (next_pos h) n i (omega arith) (omega arith))

-- A write outside a window does not change it.
pub window-update :
    (buf : ℕ → ℕ) (h n m i v : ℕ)
    → h < bufsize
    → n + m < bufsize
    → i ≡ (h + n + m) % bufsize
    → window (update buf i v) h n ≡ window buf h n
unfolding window
window-update buf h zero m i v b le e = refl
window-update buf h (suc n) m i v b le e =
    let ne : h ≢ i = omega arith in
    let rest = window-update buf (next_pos h) n m i v (omega arith) (omega arith) (omega arith) in
    ground (arith, rest)

-- What an I/O queue holds.
abbrev pub contents : IoQueue → List ℕ
contents q = window q.buf q.tail (ioq_length q)

pub length-contents : (q : IoQueue) → length (contents q) ≡ ioq_length q
length-contents q = length-window q.buf q.tail (ioq_length q)

pub last-snoc : (xs : List ℕ) (x : ℕ) → last (xs ++ (x ∷ [])) ≡ x
unfolding last
last-snoc [] x = refl
last-snoc (y ∷ []) x = refl
last-snoc (y ∷ z ∷ xs) x = last-snoc (z ∷ xs) x

pub unpush-snoc : (xs : List ℕ) (x : ℕ) → unpush (xs ++ (x ∷ [])) ≡ xs
unfolding unpush
unpush-snoc [] x = refl
unpush-snoc (y ∷ []) x = refl
unpush-snoc (y ∷ z ∷ xs) x = ap (λ r. y ∷ r) (unpush-snoc (z ∷ xs) x)

-- The two positions and the length of a queue.
pub head_lem :
    {q : IoQueue}
    → IsValid q
    → (q.head ≡ (q.tail + ioq_length q) % bufsize) × (ioq_length q < bufsize)
unfolding ioq_length
head_lem v = ground arith

-- The waiting tasks are no part of the contents.
pub contents_waiters :
    (q : IoQueue) (x y : Option ℕ) → contents (record q { producer = x; consumer = y }) ≡ contents q
unfolding ioq_length
contents_waiters q x y = refl
