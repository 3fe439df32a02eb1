-- ===== src/Session/Calls.antt =====
-- Paths and files of the disk, and what a system call establishes.
use telecollection.Prelude.{
  ==_iff, ◌≡◌, refl, arith, Bytes, true, false, Option, none, some, [], ◌∷◌,
}
use telecollection.Prelude.Triples.{After, Triple}
use telecollection.Session.{
  Entry, Files, Fault, Disk, is_path, put, next_fault, left_by, outcome, system_call,
}

pub is_path_refl : (p : Bytes) → is_path p p ≡ true
unfolding is_path
is_path_refl [] = refl
is_path_refl (c ∷ p) = ground (arith, is_path_refl p, ==_iff c c)

pub put-same : (p : Bytes) (e : Option Entry) (files : Files) → put p e files p ≡ e
unfolding put
put-same p e files = rw (is_path_refl p) refl

pub put-other :
    (p q : Bytes) (e : Option Entry) (files : Files)
    → is_path p q ≡ false
    → put p e files q ≡ files q
unfolding put
put-other p q e files h = rw h refl

pub outcome-After :
    {A : Type 0} (Q : A → Disk → Type 0) (E : Disk → Type 0) (o : Option Fault) (x : A × Files)
    (failed : Fault → Files) (d : Disk)
    → Q x.0 (left_by d x.1)
    → ((f : Fault) → E (left_by d (failed f)))
    → After Q E (outcome o x failed d)
outcome-After Q E none (a, files) failed d q e = q
outcome-After Q E (some f) (a, files) failed d q e = e f

pub call-Triple :
    {A : Type 0} {P : Disk → Type 0} {Q : A → Disk → Type 0} {E : Disk → Type 0}
    (succeeds : Files → A × Files) (fails : Files → Fault → Files)
    → ((d : Disk) → P d → Q (succeeds d.files).0 (left_by d (succeeds d.files).1))
    → ((d : Disk) (f : Fault) → P d → E (left_by d (fails d.files f)))
    → Triple P (system_call succeeds fails) Q E
unfolding system_call
call-Triple {Q = Q} {E} succeeds fails q e = record {
  at = λ d h.
      outcome-After Q E (next_fault d.faults) (succeeds d.files) (fails d.files) d (q d h)
        (λ f. e d f h);
}
