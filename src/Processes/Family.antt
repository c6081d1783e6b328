-- ===== src/Processes/Family.antt =====
-- Finding a task of the list after the changes that `sys_exit` makes.
use magic_box.Prelude.{
  ℕ, ◌≡◌, ◌≢◌, refl, ap, ◌∙◌, Bool, true, false, ◌==◌, if◌then◌else◌, arith, some, List, [], ◌∷◌,
  map, Bool-cases, ==_iff, some-injective, subst, inl, inr,
}
use magic_box.Processes.{Process, pid2thread, change, dlist_traversal}

-- The task with an id is there and has a property.
abbrev pub Has : ℕ → (Process → Type 0) → List Process → Type 0
Has pid P l = (p : Process) × (pid2thread pid l ≡ some p) × P p

abbrev pub KeepsPid : (Process → Process) → Type 0
KeepsPid f = (p : Process) → (f p).pid ≡ p.pid

keeps-test :
    (f : Process → Process) (pid : ℕ) (p : Process)
    → KeepsPid f
    → ((f p).pid == pid) ≡ (p.pid == pid)
keeps-test f pid p keeps = ap (λ n. n == pid) (keeps p)

pub pid2thread-pid :
    (pid : ℕ) (l : List Process) (p : Process) → pid2thread pid l ≡ some p → p.pid ≡ pid
unfolding pid2thread
pid2thread-pid pid [] p e = ground arith
pid2thread-pid pid (x ∷ l) p e = ground (arith, pid2thread-pid pid l p)

pub pid2thread-change_self :
    (pid : ℕ) (f : Process → Process) (l : List Process) (p : Process)
    → KeepsPid f
    → pid2thread pid l ≡ some p
    → pid2thread pid (change pid f l) ≡ some (f p)
unfolding pid2thread change
pid2thread-change_self pid f [] p keeps e = ground arith
pid2thread-change_self pid f (x ∷ l) p keeps e =
    ground (arith, pid2thread-change_self pid f l p keeps, keeps-test f pid x keeps)

pub pid2thread-change_other :
    (pid other : ℕ) (f : Process → Process) (l : List Process)
    → KeepsPid f
    → pid ≢ other
    → pid2thread pid (change other f l) ≡ pid2thread pid l
unfolding pid2thread change
pid2thread-change_other pid other f [] keeps ne = refl
pid2thread-change_other pid other f (x ∷ l) keeps ne = elim (Bool-cases (x.pid == other)) [
  | inl e ↦
      let not_it : (x.pid == pid) ≡ false = ground (arith, e, ne) in
      rw (e, keeps-test f pid x keeps, not_it) refl
  | inr e ↦ rw e (
      ap (λ o. if x.pid == pid then some x else o) (pid2thread-change_other pid other f l keeps ne))
]

pub pid2thread-map :
    (pid : ℕ) (f : Process → Process) (l : List Process) (p : Process)
    → KeepsPid f
    → pid2thread pid l ≡ some p
    → pid2thread pid (map f l) ≡ some (f p)
unfolding pid2thread
pid2thread-map pid f [] p keeps e = ground arith
pid2thread-map pid f (x ∷ l) p keeps e =
    ground (arith, pid2thread-map pid f l p keeps, keeps-test f pid x keeps)

-- A change of one task, where the property follows for a changed task and for one left alone.
pub Has-change :
    (pid other : ℕ) (f : Process → Process) (P Q : Process → Type 0) (l : List Process)
    → KeepsPid f
    → ((p : Process) → P p → Q (f p))
    → ((p : Process) → P p → Q p)
    → Has pid P l
    → Has pid Q (change other f l)
Has-change pid other f P Q l keeps changes stays (p, e, q) = elim (Bool-cases (pid == other)) [
  | inl same ↦
      subst (λ n. Has pid Q (change n f l)) ((==_iff pid other).0 same)
        (f p, pid2thread-change_self pid f l p keeps e, changes p q)
  | inr ne ↦ (
    p,
    pid2thread-change_other pid other f l keeps (λ same. absurd (ground (arith, ne, same))) ∙ e,
    stays p q,
  )
]

-- The first task that passes a test for its id among others is the task with the id.
pub dlist_traversal-pid :
    (pid : ℕ) (test : Process → Bool) (l : List Process) (p : Process)
    → ((x : Process) → (x.pid == pid) ≡ false → test x ≡ false)
    → pid2thread pid l ≡ some p
    → test p ≡ true
    → dlist_traversal test l ≡ some p
unfolding pid2thread dlist_traversal
dlist_traversal-pid pid test [] p only e passes = ground arith
dlist_traversal-pid pid test (x ∷ l) p only e passes = elim (Bool-cases (x.pid == pid)) [
  | inl same ↦
      let first : x ≡ p =
        some-injective
          (subst (λ (b : Bool). (if b then some x else pid2thread pid l) ≡ some p) same e) in
      rw (ap test first ∙ passes) (ap some first)
  | inr ne ↦ rw (only x ne) (
      dlist_traversal-pid pid test l p only
        (subst (λ (b : Bool). (if b then some x else pid2thread pid l) ≡ some p) ne e) passes)
]
