-- ===== src/Pipe/Stream.antt =====
-- A pipe shared by any number of readers and writers: every interleaving of the rounds of their
-- calls, and of closes, passes the bytes on in order, each once.
use mathlib.Core.List.{append_assoc}
use magic_box.Prelude.{ℕ, ◌≡◌, ap, sym, subst, ◌∙◌, List, [], ◌∷◌, ◌++◌, arith, Option, none, some}
use magic_box.IoQueue.{Task}
use magic_box.IoQueue.Window.{IsValid, contents_waiters}
use magic_box.Pipe.{
  Pipe, received, read_sleeps, read_round, stored, write_sleeps, write_round, pipe_release,
}
use magic_box.Pipe.Read.{held, read_round-RoundOk}
use magic_box.Pipe.Read
use magic_box.Pipe.Write.{write_round-RoundOk}
use magic_box.Pipe.Write

-- The pipe, with all bytes that writers stored and all that readers received so far, oldest first.
pub record System : Type 0 where
  pub pipe : Pipe
  pub sent : List ℕ
  pub taken : List ℕ

-- What can happen next. A round that ends its call, or finds no reader, changes nothing.
pub data Step (s : System) : System → Type 0 where
  reads :
      (me : Task) (n byte : ℕ) (p : Pipe) (ready : List Task)
      → read_round s.pipe me n ≡ received p byte ready
      → Step s (record s { pipe = p; taken = s.taken ++ (byte ∷ []) })
  reader_sleeps :
      (me : Task) (n : ℕ) (p : Pipe)
      → read_round s.pipe me n ≡ read_sleeps p
      → Step s (record s { pipe = p })
  writes :
      (me : Task) (byte : ℕ) (p : Pipe) (ready : List Task)
      → write_round s.pipe me byte ≡ stored p ready
      → Step s (record s { pipe = p; sent = s.sent ++ (byte ∷ []) })
  writer_sleeps :
      (me : Task) (byte : ℕ) (p : Pipe)
      → write_round s.pipe me byte ≡ write_sleeps p
      → Step s (record s { pipe = p })
  closes : (flags : ℕ) → Step s (record s { pipe = (pipe_release s.pipe flags).0 })

pub data Reach (s : System) : System → Type 0 where
  here : Reach s s
  next : {t u : System} → Reach s t → Step t u → Reach s u

pub record IsStream (s : System) : Type 0 where
  pub valid : IsValid s.pipe.queue
  pub in_order : s.taken ++ held s.pipe ≡ s.sent

-- A round that only puts its caller to sleep.
asleep :
    (s : System) (p : Pipe) (x y : Option Task)
    → p ≡ record s.pipe { queue = record s.pipe.queue { producer = x; consumer = y } }
    → IsStream s
    → IsStream (record s { pipe = p })
asleep s p x y e i = record {
  valid = subst (λ (r : Pipe). IsValid r.queue) (sym e) (omega (arith, i.valid));
  in_order = ap (λ xs. s.taken ++ xs) (ap held e ∙ contents_waiters s.pipe.queue x y) ∙ i.in_order;
}

released :
    (s : System) (flags : ℕ)
    → IsStream s
    → IsStream (record s { pipe = (pipe_release s.pipe flags).0 })
unfolding pipe_release
released s flags i = record {
  valid = omega (arith, i.valid);
  in_order = ap (λ xs. s.taken ++ xs) (contents_waiters s.pipe.queue none none) ∙ i.in_order;
}

Step-IsStream : {s t : System} → Step s t → IsStream s → IsStream t
Step-IsStream {s} (reads me n byte p ready e) i =
    let ok = subst (Read.RoundOk s.pipe me n) e (read_round-RoundOk s.pipe me n i.valid) in
    record {
      valid = ok.1;
      in_order =
          append_assoc s.taken (byte ∷ []) (held p)
          ∙ (ap (λ xs. s.taken ++ xs) (sym ok.0) ∙ i.in_order);
    }
Step-IsStream {s} (reader_sleeps me n p e) i =
    let ok = subst (Read.RoundOk s.pipe me n) e (read_round-RoundOk s.pipe me n i.valid) in
    asleep s p s.pipe.queue.producer (some me) ok.4 i
Step-IsStream {s} (writes me byte p ready e) i =
    let ok = subst (Write.RoundOk s.pipe me byte) e (write_round-RoundOk s.pipe me byte i.valid) in
    record {
      valid = ok.1;
      in_order =
          ap (λ xs. s.taken ++ xs) ok.0
          ∙ (sym (append_assoc s.taken (held s.pipe) (byte ∷ []))
              ∙ ap (λ xs. xs ++ (byte ∷ [])) i.in_order);
    }
Step-IsStream {s} (writer_sleeps me byte p e) i =
    let ok = subst (Write.RoundOk s.pipe me byte) e (write_round-RoundOk s.pipe me byte i.valid) in
    asleep s p (some me) s.pipe.queue.consumer ok.3 i
Step-IsStream {s} (closes flags) i = released s flags i

-- Whatever the interleaving of readers, writers and closes: the bytes received so far are the first
-- of the bytes sent, in order, the rest is in the pipe, and the pipe stays valid.
pub Reach-IsStream : {s t : System} → Reach s t → IsStream s → IsStream t
Reach-IsStream here i = i
Reach-IsStream (next r st) i = Step-IsStream st (Reach-IsStream r i)
