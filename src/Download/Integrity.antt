-- ===== src/Download/Integrity.antt =====
-- What a download has written when it succeeds.
use mathlib.Core.Path.{subst}
use telecollection.Prelude.{
  ℕ, ◌+◌, ◌<◌, ◌≡◌, refl, sym, ap, ◌∙◌, arith, ℤ, pos, leb_ℤ, ◌==ℤ◌, ==ℤ_iff, add64, wrap64, two63,
  Bytes, Bool, true, false, not, none, some, [], ◌∷◌, Result, ok, err, panicked, Bool-cases, inl,
  inr, ok-injective, Action, Yields, Yields-bind, Yields-wrapping, Yields-lift, refuse_if, Error,
}
use telecollection.Telegram.{Api, Document, Messages}
use telecollection.Dialogs.{Folder}
use telecollection.Folders.{input_channel}
use telecollection.Transfer.{Context, OnProgress, Write}
use telecollection.Transfer.Rewinding.{CancelsWithError}
use telecollection.Transfer.Download.{Stream, download_to}
use telecollection.Transfer.Download.Reports.{
  TakesWhatItSays, UsesWrite, TakesNothing, add64-wrap64,
}
use telecollection.Transfer.Download.Sinks.{download_to-keeps, KeptByReports}
use telecollection.Download.{
  document_from, write_counting, beside_count, count_of, counting, write_document, file,
}

-- The count of the writes since `v0`, as an int64.
abbrev Counts : {V : Type 0} → (V → ℕ) → V → ℤ × V → Type 0
Counts taken v0 (n, v) = (k : ℕ) × (n ≡ wrap64 (pos k)) × (taken v ≡ taken v0 + k)

module _ {V : Type 0} (taken : V → ℕ) (v0 : V) where
  write_counting-Counts :
      (write : Write V) (p : Bytes) (s : ℤ × V)
      → TakesWhatItSays write taken
      → Counts taken v0 s
      → Counts taken v0 (write_counting write p s).1
  unfolding write_counting wrap64
  write_counting-Counts write p (n, v) takes (k, c, e) =
      let (m, d, f) = takes p v in
      (
        k + m,
        ap (λ z. add64 z (write p v).0.0) c ∙ ap (add64 (wrap64 (pos k))) d ∙ add64-wrap64 k m,
        omega (arith, e, f),
      )

  beside_count-keeps :
      (on_progress : OnProgress V)
      → TakesNothing on_progress taken
      → KeptByReports (beside_count on_progress) (Counts taken v0)
  beside_count-keeps none quiet = tt
  beside_count-keeps (some f) quiet = λ p (n, v) (k, c, e). (k, c, quiet p v ∙ e)

count_of-ok : (m n : ℤ) (r : Result (Unit {0})) → count_of m r ≡ ok n → (r ≡ ok tt) × (m ≡ n)
count_of-ok m n (ok tt) h = (refl, ok-injective h)
count_of-ok m n (err e) h = cc
count_of-ok m n panicked h = cc

exact : (k : ℕ) → k < two63 → wrap64 (pos k) ≡ pos k
unfolding wrap64
exact k h = ground arith

counting-ok :
    {V T : Type 0} (m : Action ((ℤ × V) × T) (Unit {0})) (n : ℤ) (v v' : V) (t t' : T)
    → counting m (v, t) ≡ (ok n, (v', t'))
    → m ((pos 0, v), t) ≡ (ok tt, ((n, v'), t'))
counting-ok m n v v' t t' eq =
    let (r, c) = count_of-ok _ n _ (ap (λ q. q.0) eq) in λ i. (r i, ((c i, (eq i).1.0), (eq i).1.1))

-- The fetched document, of `k` bytes, and the writer that took as many.
abbrev pub Downloaded : {V T : Type 0} → (V → ℕ) → Api (V × T) → Folder → ℤ → V × T → V × T → Type 0
unfolding document_from
Downloaded {V} {T} taken api folder id s (v', t') =
    (res : Messages) × (doc : Document) × (v0 : V) × (t0 : T) × (k : ℕ) × (api.channels_get_messages
        (input_channel folder) (id ∷ []) s
      ≡ (ok res, (v0, t0)))
    × (document_from res id ≡ ok doc)
    × (doc.size ≡ pos k)
    × (taken v' ≡ taken v0 + k)

refuse_if-same :
    {S : Type 0} (b : Bool) (e : Error) (s s' : S) {a : Unit {0}}
    → refuse_if b e s ≡ (ok a, s')
    → s ≡ s'
refuse_if-same true e s s' h = cc
refuse_if-same false e s s' h = ap (λ q. q.1) h

module _ {V T L : Type 0} (taken : V → ℕ) (ctx : Context T) (location : Document → L)
    (stream : Api (V × T) → L → Stream (ℤ × V) T) (api : Api (V × T)) (write : Write V)
    (on_progress : OnProgress V) (takes : TakesWhatItSays write taken)
    (quiet : TakesNothing on_progress taken) (cancels : CancelsWithError ctx) where
  -- The document is written, and counted.
  write_document-Counts :
      (doc : Document) (n : ℤ) (v v' : V) (t t' : T)
      → UsesWrite (stream api (location doc))
      → write_document ctx location stream api doc write on_progress (v, t) ≡ (ok n, (v', t'))
      → Counts taken v (n, v')
  unfolding write_document wrap64
  write_document-Counts doc n v v' t t' uses eq =
      download_to-keeps (Counts taken v) ctx stream api (location doc) doc.size
        (write_counting write) (beside_count on_progress) (pos 0, v) (n, v') t t'
        (λ p s h. write_counting-Counts taken v write p s takes h)
        (beside_count-keeps taken v on_progress quiet) uses cancels (0, ground arith, omega arith)
        (counting-ok
          (download_to ctx stream (some api) (some (location doc)) doc.size
            (some (write_counting write)) (beside_count on_progress))
          n v v' t t' eq)

  here : {S A : Type 0} (m : Action S A) (s : S) → Yields m s (λ a s'. m s ≡ (ok a, s'))
  here m s = record { at = λ h. h }

  -- The check at the end of File.
  Counts-size :
      (n size : ℤ) (v0 v : V)
      → n ≡ size
      → taken v < two63
      → Counts taken v0 (n, v)
      → (k : ℕ) × (size ≡ pos k) × (taken v ≡ taken v0 + k)
  unfolding wrap64
  Counts-size n size v0 v e small (k, c, h) = (k, sym e ∙ c ∙ exact k (omega (arith, h, small)), h)

  last_check :
      (n : ℤ) (doc : Document) (s : V × T) (msg : Error)
      → Yields (refuse_if (not (n ==ℤ doc.size)) msg) s (λ a s'. (n ≡ doc.size) × (s ≡ s'))
  last_check n doc s msg = record {
    at = λ h. elim (Bool-cases (n ==ℤ doc.size)) [
      | inl e ↦ ((==ℤ_iff n doc.size).0 e, ap (λ q. q.1) (rw e at h))
      | inr e ↦ let failed = rw e at h in cc
    ];
  }

  checked-Yields :
      (folder : Folder) (id : ℤ) (s : V × T)
      → ((doc : Document) → UsesWrite (stream api (location doc)))
      → Yields
          (file ctx location stream (some api) folder id (some write) on_progress)
          s
          (λ a s'. taken s'.0 < two63 → Downloaded taken api folder id s s')
  unfolding file Downloaded
  checked-Yields folder id s uses =
      Yields-bind _ _ (here (refuse_if (leb_ℤ id (pos 0)) _) s) (λ a s1 h1.
        Yields-bind _ _
          (Yields-wrapping _ _
            (here (api.channels_get_messages (input_channel folder) (id ∷ [])) s1))
          (λ res s2 h2. Yields-lift (document_from res id) _ (λ doc h3.
            Yields-bind _ _
              (Yields-wrapping _ _
                (here (write_document ctx location stream api doc write on_progress) s2))
              (λ n s3 h4. record {
                at = λ h5 small.
                    let (e, q) = (last_check n doc s3 _).at h5 in
                    let (k, sized, took) =
                      Counts-size n doc.size s2.0 s3.0 e
                        (subst (λ s. taken s.0 < two63) (sym q) small)
                        (write_document-Counts doc n s2.0 s3.0 s2.1 s3.1 (uses doc) h4) in
                    (
                      res,
                      doc,
                      s2.0,
                      s2.1,
                      k,
                      ap (api.channels_get_messages (input_channel folder) (id ∷ []))
                            (refuse_if-same _ _ s s1 h1)
                          ∙ h2,
                      h3,
                      sized,
                      sym (ap (λ s. taken s.0) q) ∙ took,
                    );
              }))))

-- A File that returns no error has fetched a message with a document, and the writer has taken exactly
-- as many bytes since as the document has: if it says how much it takes, and has taken less
-- than 2^63 bytes in all, the callback writes nothing there, the downloader writes by the writer it is given only,
-- and a context that is done has an error.
pub file-Downloaded :
    {V T L : Type 0} (taken : V → ℕ) (ctx : Context T) (location : Document → L)
    (stream : Api (V × T) → L → Stream (ℤ × V) T) (api : Api (V × T)) (folder : Folder) (id : ℤ)
    (write : Write V) (on_progress : OnProgress V) (v v' : V) (t t' : T)
    → TakesWhatItSays write taken
    → TakesNothing on_progress taken
    → ((doc : Document) → UsesWrite (stream api (location doc)))
    → CancelsWithError ctx
    → taken v' < two63
    → file ctx location stream (some api) folder id (some write) on_progress (v, t)
      ≡ (ok tt, (v', t'))
    → Downloaded taken api folder id (v, t) (v', t')
unfolding file
file-Downloaded taken ctx location stream api folder id write on_progress v v' t t' takes quiet uses
      cancels small eq =
    (checked-Yields taken ctx location stream api write on_progress takes quiet cancels folder id
        (v, t) uses).at
      eq small
