-- ===== src/Auth/Channels/Queueing.antt =====
-- A StartQR that waits for an outcome that a Submit has received.
use telecollection.Prelude.{
  ℕ, ◌≡◌, refl, sym, ◌∙◌, ◌==◌, ==_iff, Bool-cases, ◌⊎◌, inl, inr, Option, none, some, err, Error,
}
use mathlib.Core.Path.{subst, ap}
use telecollection.Auth.{Flow}
use telecollection.Auth.Attempts.{Attempt, Attempts, put, Receives, receives}
use telecollection.Auth.Channels.{
  Request, Net, qr_queued, qr_answered, Resumes, code_crashes, qr_clears, qr_leaves, Step, works,
  opens, resumes, Steps, here, next, Reachable,
}
use telecollection.Auth.Channels.Moves.{Evolves, Change-some, Drained, Moves-Drained, put-other}
use telecollection.Auth.Channels.Invariant.{Rooms, Reachable-Rooms, Step-Goes, Steps-Rooms}

-- The goroutine of attempt `p` has ended, and its outcome was received.
abbrev pub DrainedAt : Attempts → ℕ → Type 0
DrainedAt ts p = (a : Attempt) × (ts p ≡ some a) × Drained a

-- The request `i` waits for attempt `p`, or its own context ended it.
abbrev pub QueuedOrLeft : Net → ℕ → ℕ → ℕ → Type 0
QueuedOrLeft n i g p =
    (n.requests i ≡ some (qr_queued g p))
    ⊎ ((e : Error) × (n.requests i ≡ some (qr_answered (err e))))

nothing_received :
    {ts : Attempts} {d : Option ℕ} {e : Option Error} {ts' : Attempts} (p : ℕ)
    → Receives ts d e ts'
    → d ≡ some p
    → DrainedAt ts p
    → ⊥
nothing_received {ts} p (receives g a e h t) same (b, h', (o, s, n)) =
    let gp : g ≡ p = cc in
    let there : ts p ≡ some a = subst (λ z. ts z ≡ some a) gp h in
    let ab : a ≡ b = cc in absurd (cc (ap (λ z. z.done) ab))

left_queue :
    {n : Net} {r : Request} {f : Flow} {ts : Attempts} {q : Request} (g p : ℕ)
    → Resumes n r f ts q
    → r ≡ qr_queued g p
    → DrainedAt n.attempts p
    → (e : Error) × (q ≡ qr_answered (err e))
left_queue g p (qr_clears g' p' e ts r) h d =
    let pp : some p' ≡ some p = cc in absurd (nothing_received p r pp d)
left_queue g p (qr_leaves g' p' e) h d = (e, refl)
left_queue g p _ h d = absurd (cc)

no_more :
    {n : Net} {r : Request} {f : Flow} {ts : Attempts} {q : Request} (e : Error)
    → Resumes n r f ts q
    → r ≡ qr_answered (err e)
    → ⊥
no_more e (code_crashes d t) h = cc
no_more e _ h = cc

resumed :
    {n : Net} {r : Request} {f : Flow} {ts : Attempts} {q : Request} (i g p : ℕ)
    → Resumes n r f ts q
    → n.requests i ≡ some r
    → DrainedAt n.attempts p
    → QueuedOrLeft n i g p
    → (e : Error) × (q ≡ qr_answered (err e))
resumed i g p s h d (inl w) = left_queue g p s (cc) d
resumed i g p s h d (inr (e, w)) = absurd (no_more e s (cc))

DrainedAt-Evolves :
    (f : Flow) (ts ts' : Attempts) (p : ℕ) → Evolves f ts ts' → DrainedAt ts p → DrainedAt ts' p
DrainedAt-Evolves f ts ts' p ev (a, h, d) =
    let (b, h', m) = Change-some a (ev p) h in (b, h', Moves-Drained m d)

opening :
    (n : Net) (i j g p : ℕ) (q : Request)
    → n.requests j ≡ none
    → QueuedOrLeft n i g p
    → put j q n.requests i ≡ n.requests i
opening n i j g p q free w = elim (Bool-cases (i == j)) [
  | inl t ↦
      let here : n.requests i ≡ none =
        subst (λ z. n.requests z ≡ none) (sym ((==_iff i j).0 t)) free in
      elim w [ inl h ↦ absurd (cc) | inr (e, h) ↦ absurd (cc) ]
  | inr t ↦ put-other j i q n.requests t
]

Step-QueuedOrLeft :
    {n n' : Net} (i g p : ℕ)
    → Step n n'
    → DrainedAt n.attempts p
    → QueuedOrLeft n i g p
    → QueuedOrLeft n' i g p
Step-QueuedOrLeft i g p (works n x a a' f h s) d w = w
Step-QueuedOrLeft i g p (opens n j f ts q small h o) d w =
    let same = opening n i j g p q h w in
    elim w [ inl e ↦ inl (same ∙ e) | inr (x, e) ↦ inr (x, same ∙ e) ]
Step-QueuedOrLeft i g p (resumes n j r f ts q small h s) d w = elim (Bool-cases (i == j)) [
  | inl t ↦
      let at_i = subst (λ z. n.requests z ≡ some r) (sym ((==_iff i j).0 t)) h in
      let (e, same) = resumed i g p s at_i d w in inr (e, rw t (ap some same))
  | inr t ↦
      let same = put-other j i q n.requests t in
      elim w [ inl e ↦ inl (same ∙ e) | inr (x, e) ↦ inr (x, same ∙ e) ]
]

Steps-QueuedOrLeft :
    {n n' : Net} (i g p : ℕ)
    → Steps n n'
    → Rooms n.flow n.attempts
    → DrainedAt n.attempts p
    → QueuedOrLeft n i g p
    → DrainedAt n'.attempts p × QueuedOrLeft n' i g p
Steps-QueuedOrLeft i g p (here n) rooms d w = (d, w)
Steps-QueuedOrLeft i g p (next n n' n'' l s) rooms d w =
    let (d', w') = Steps-QueuedOrLeft i g p l rooms d w in
    (
      DrainedAt-Evolves _ _ _ p (Step-Goes s (Steps-Rooms l rooms)).1 d',
      Step-QueuedOrLeft i g p s d' w',
    )

-- From a reachable state in which a StartQR waits for a preempted attempt whose goroutine has ended,
-- and whose outcome another request has received: whatever is done, the StartQR waits on, or returns an
-- error.
pub start_qr-QueuedOrLeft :
    (n n' : Net) (i g p : ℕ) (a : Attempt)
    → Reachable n
    → n.attempts p ≡ some a
    → Drained a
    → n.requests i ≡ some (qr_queued g p)
    → Steps n n'
    → QueuedOrLeft n' i g p
start_qr-QueuedOrLeft n n' i g p a r h d w l =
    (Steps-QueuedOrLeft i g p l (Reachable-Rooms n r) (a, h, d) (inl w)).1
