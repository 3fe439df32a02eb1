-- ===== src/Transfer/Rewinding.antt =====
-- What Read and reset of progressReader do with the reader, and with the fields.
use mathlib.Core.Path.{subst}
use telecollection.Prelude.{
  ℕ, ◌≡◌, ◌≢◌, refl, ap, ℤ, Bytes, Bool, true, false, Option, none, some, ◌⊎◌, inl, inr, [], ◌∷◌,
  Error, Option-cases, Bool-cases,
}
use telecollection.Transfer.{
  Context, OnProgress, Reader, ReaderState, cleared, rewind, rewound, reset_reader, count_read,
  end_read, read_progress,
}

-- The documented behaviour of a context: after a receive from ctx.Done(), ctx.Err() is not nil.
abbrev pub CancelsWithError : {T : Type 0} → Context T → Type 0
CancelsWithError {T} ctx =
    (d : ℤ) (t : T) → (ctx.await d t).0 ≡ false → ctx.ctx_err (ctx.await d t).1 ≢ none

-- A seek to the start that succeeds leads there, if the reader can seek.
abbrev pub Rewinds : {V : Type 0} → Reader V → (V → Type 0) → Type 0
Rewinds {V} r AtStart =
    (seek : V → Option Error × V) (v : V)
    → r.seek ≡ some seek
    → (seek v).0 ≡ none
    → AtStart (seek v).1

abbrev pub Started : {V : Type 0} → ReaderState × V → Type 0
Started s = s.0.started ≡ true

module _ {V : Type 0} (r : Reader V) where
  rewound-Started :
      (pr : ReaderState) (q : Option Error × V) → Started (pr, q.1) → Started (rewound r pr q).1
  rewound-Started pr (some e, v) h = h
  rewound-Started pr (none, v) h = refl

  pub rewind-Started :
      (b : Bool) (seek : Option (V → Option Error × V)) (pr : ReaderState) (v : V)
      → pr.started ≡ b
      → Started (rewind r b seek (pr, v)).1
  rewind-Started true none pr v h = refl
  rewind-Started true (some seek) pr v h = rewound-Started pr (seek v) h
  rewind-Started false seek pr v h = refl

module _ {V T : Type 0} (r : Reader V) (ctx : Context T) (is_eof : Error → Bool) (size : ℤ)
    (on_progress : OnProgress V) where
  count_read-Started :
      (p : Bytes) (s : ReaderState × V)
      → Started s
      → Started (count_read r ctx is_eof size on_progress p s)
  unfolding count_read
  count_read-Started [] s h = h
  count_read-Started (b ∷ p) s h = h

  end_read-Started :
      (e : Option Error) (s : ReaderState × V)
      → Started s
      → Started (end_read r ctx is_eof size on_progress e s)
  unfolding end_read
  end_read-Started none s h = h
  end_read-Started (some e) s h = elim (Bool-cases (is_eof e)) [ inl t ↦ rw t h | inr t ↦ rw t h ]

  pub read_progress-Started :
      (n : ℕ) (x : ReaderState × V) (t : T)
      → Started x
      → Started (read_progress r ctx is_eof size on_progress n (x, t)).1.0
  unfolding read_progress
  read_progress-Started n (pr, v) t h = elim (Option-cases (ctx.ctx_err t)) [
    | inl c ↦
        rw (c, read_progress)
          (end_read-Started (r.read_some n v).0.1 _
            (count_read-Started (r.read_some n v).0.0 (pr, (r.read_some n v).1) h))
    | inr (e, c) ↦ rw (c, read_progress) h
  ]

module _ {V : Type 0} (r : Reader V) (AtStart : V → Type 0) (rewinds : Rewinds r AtStart) where
  -- Before the first attempt the reader is at its start, and before another it can seek.
  abbrev pub Ready : ReaderState × V → Type 0
  Ready (pr, v) = ((pr.started ≡ false) × AtStart v) ⊎ ((pr.started ≡ true) × (r.seek ≢ none))

  rewound-cleared :
      (pr : ReaderState) (q : Option Error × V) (s : ReaderState × V)
      → (q.0 ≡ none → AtStart q.1)
      → rewound r pr q ≡ (none, s)
      → (s.0 ≡ cleared r) × AtStart s.1
  rewound-cleared pr (some e, v) s start eq = cc
  rewound-cleared pr (none, v) s start eq =
      subst (λ s. (s.0 ≡ cleared r) × AtStart s.1) (ap (λ x. x.1) eq) (refl, start refl)

  rewind-cleared :
      (b : Bool) (pr : ReaderState) (v : V) (s : ReaderState × V)
      → ((b ≡ false) × AtStart v) ⊎ ((b ≡ true) × (r.seek ≢ none))
      → rewind r b r.seek (pr, v) ≡ (none, s)
      → (s.0 ≡ cleared r) × AtStart s.1
  rewind-cleared true pr v s (inl (b, start)) eq = cc
  rewind-cleared true pr v s (inr (b, seeks)) eq = elim (Option-cases r.seek) [
    | inl q ↦ elim (seeks q) [ ]
    | inr (seek, q) ↦ rewound-cleared pr (seek v) s (rewinds seek v q) (rw q at eq)
  ]
  rewind-cleared false pr v s (inl (b, start)) eq =
      subst (λ s. (s.0 ≡ cleared r) × AtStart s.1) (ap (λ x. x.1) eq) (refl, start)
  rewind-cleared false pr v s (inr (b, seeks)) eq = cc

  -- A reset that succeeds leaves the reader at its start, with the count at 0.
  pub reset_reader-cleared :
      (x s : ReaderState × V)
      → Ready x
      → reset_reader r x ≡ (none, s)
      → (s.0 ≡ cleared r) × AtStart s.1
  unfolding reset_reader
  reset_reader-cleared (pr, v) s h eq = rewind-cleared pr.started pr v s h eq
