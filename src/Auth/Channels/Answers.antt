-- ===== src/Auth/Channels/Answers.antt =====
-- What SubmitCode and SubmitPassword answer.
use mathlib.Core.Path.{subst}
use telecollection.Prelude.{
  ℕ, ◌≡◌, ◌≢◌, refl, sym, ◌==◌, Bool-cases, ◌⊎◌, inl, inr, ◌∙◌, Option, none, some, ok, Error,
}
use telecollection.Auth.{
  Flow, submit_code, submit_password, attempt_error, SubmitWake, EndWake, observed, end_observed,
}
use telecollection.Auth.Invariant.{submit-owner}
use telecollection.Auth.Attempts.{
  Attempt, Attempts, put, Receives, receives, SubmitWakes, by_password, by_finish, by_leaving,
  EndWakes, by_outcome, by_giving_up,
}
use telecollection.Auth.Channels.{
  Request, Net, new_net, login_waits, code_offered, code_taken, password_offered, password_taken,
  qr_queued, qr_cleared, qr_waits, answered, qr_answered, crashed, Opens, login, login_refused,
  code, code_refused, password, password_refused, qr, qr_behind, out, Resumes, login_wakes,
  code_goes, code_ends, code_leaves, code_crashes, code_wakes, password_goes, password_ends,
  password_leaves, password_crashes, password_wakes, qr_clears, qr_leaves, qr_launches, qr_wakes,
  Step, works, opens, resumes, Steps, here, next, Reachable,
}
use telecollection.Auth.Channels.Moves.{
  Evolves, Change-some, Over, Moves-Over, Closed, put-same, put-other,
}
use telecollection.Auth.Channels.Invariant.{Reachable-Rooms, Step-Goes}
use telecollection.Auth.Channels.Refinement.{abstract, Reachable-abstract}

-- The goroutine of attempt `g` has ended with nil.
abbrev pub LoggedIn : Attempts → ℕ → Type 0
LoggedIn ts g = (a : Attempt) × (ts g ≡ some a) × Over none a

abbrev Truthful : Attempts → Option Error → Option ℕ → Type 0
Truthful ts (some e) d = Unit
Truthful ts none none = Unit
Truthful ts none (some g) = LoggedIn ts g

abbrev Present : Option ℕ → Type 0
Present none = ⊥
Present (some g) = Unit

-- A request that offers a value has an authenticator; one that was answered nil over a done channel
-- was told the truth; none has crashed.
abbrev Fits : Attempts → Request → Type 0
Fits ts (login_waits g) = Unit
Fits ts (code_offered a d t) = Present a
Fits ts (code_taken a d) = Unit
Fits ts (password_offered a d t) = Present a
Fits ts (password_taken d) = Unit
Fits ts (qr_queued g p) = Unit
Fits ts (qr_cleared g) = Unit
Fits ts (qr_waits g) = Unit
Fits ts (answered d e) = Truthful ts e d
Fits ts (qr_answered r) = Unit
Fits ts crashed = ⊥

LoggedIn-Evolves :
    (f : Flow) (ts ts' : Attempts) (g : ℕ) → Evolves f ts ts' → LoggedIn ts g → LoggedIn ts' g
LoggedIn-Evolves f ts ts' g ev (a, h, o) =
    let (b, h', m) = Change-some a (ev g) h in (b, h', Moves-Over none m o)

Truthful-Evolves :
    (f : Flow) (ts ts' : Attempts) (e : Option Error) (d : Option ℕ)
    → Evolves f ts ts'
    → Truthful ts e d
    → Truthful ts' e d
Truthful-Evolves f ts ts' (some e) d ev t = tt
Truthful-Evolves f ts ts' none none ev t = tt
Truthful-Evolves f ts ts' none (some g) ev t = LoggedIn-Evolves f ts ts' g ev t

Fits-Evolves :
    (f : Flow) (ts ts' : Attempts) (q : Request) → Evolves f ts ts' → Fits ts q → Fits ts' q
Fits-Evolves f ts ts' (login_waits g) ev h = tt
Fits-Evolves f ts ts' (code_offered a d t) ev h = h
Fits-Evolves f ts ts' (code_taken a d) ev h = tt
Fits-Evolves f ts ts' (password_offered a d t) ev h = h
Fits-Evolves f ts ts' (password_taken d) ev h = tt
Fits-Evolves f ts ts' (qr_queued g p) ev h = tt
Fits-Evolves f ts ts' (qr_cleared g) ev h = tt
Fits-Evolves f ts ts' (qr_waits g) ev h = tt
Fits-Evolves f ts ts' (answered d e) ev h = Truthful-Evolves f ts ts' e d ev h
Fits-Evolves f ts ts' (qr_answered r) ev h = tt
Fits-Evolves f ts ts' crashed ev h = h

outcome-Truthful :
    (ts : Attempts) (g : ℕ) (a : Attempt) (e : Option Error)
    → ts g ≡ some a
    → Over e a
    → Truthful ts (attempt_error e) (some g)
outcome-Truthful ts g a none h o = (a, h, o)
outcome-Truthful ts g a (some e) h o = tt

-- What is received from a done channel is what its goroutine ended with.
Receives-Truthful :
    {ts : Attempts} {d : Option ℕ} {e : Option Error} {ts' : Attempts}
    → ((g : ℕ) (a : Attempt) → ts g ≡ some a → Closed a)
    → Receives ts d e ts'
    → Truthful ts' (attempt_error e) d
Receives-Truthful {ts} closed (receives g a e h t) =
    outcome-Truthful _ g (record a { done = none }) e (put-same g _ ts) (closed g a h e t)

SubmitWakes-Truthful :
    {ts : Attempts} {d auth : Option ℕ} {w : SubmitWake} {ts' : Attempts}
    → ((g : ℕ) (a : Attempt) → ts g ≡ some a → Closed a)
    → SubmitWakes ts d auth w ts'
    → Truthful ts' (observed w) d
SubmitWakes-Truthful closed (by_password g a h r) = tt
SubmitWakes-Truthful closed (by_finish a e ts' r) = Receives-Truthful closed r
SubmitWakes-Truthful closed (by_leaving a e) = tt

EndWakes-Truthful :
    {ts : Attempts} {d : Option ℕ} {w : EndWake} {ts' : Attempts}
    → ((g : ℕ) (a : Attempt) → ts g ≡ some a → Closed a)
    → EndWakes ts d w ts'
    → Truthful ts' (end_observed w) d
EndWakes-Truthful closed (by_outcome e ts' r) = Receives-Truthful closed r
EndWakes-Truthful closed (by_giving_up e) = tt

answered_alone : (ts : Attempts) (e : Option Error) → Truthful ts e none
answered_alone ts none = tt
answered_alone ts (some e) = tt

present :
    (n : Net) (a d : Option ℕ)
    → Reachable n
    → (submit_code n.flow ≡ ok (a, d)) ⊎ (submit_password n.flow ≡ ok (a, d))
    → Present a
present n a d r h =
    subst Present (sym (submit-owner (abstract n) a d (Reachable-abstract n r) h).0) tt

Opens-Fits :
    {n : Net} {f : Flow} {ts : Attempts} {q : Request} → Reachable n → Opens n f ts q → Fits ts q
Opens-Fits r (login phone g f h) = tt
Opens-Fits r (login_refused phone e h) = tt
Opens-Fits {n} r (code a d t h) = present n a d r (inl h)
Opens-Fits r (code_refused e h) = tt
Opens-Fits {n} r (password a d t h) = present n a d r (inr h)
Opens-Fits r (password_refused e h) = tt
Opens-Fits r (qr h) = tt
Opens-Fits r (qr_behind p h) = tt
Opens-Fits r out = tt

Resumes-Fits :
    {n : Net} {p : Request} {f : Flow} {ts : Attempts} {q : Request}
    → ((g : ℕ) (a : Attempt) → n.attempts g ≡ some a → Closed a)
    → Fits n.attempts p
    → Resumes n p f ts q
    → Fits ts q
Resumes-Fits closed fits (login_wakes g w ts h) = answered_alone ts _
Resumes-Fits closed fits (code_goes g d text a h s) = tt
Resumes-Fits closed fits (code_ends g d text e ts r) = Receives-Truthful closed r
Resumes-Fits closed fits (code_leaves g d text e) = tt
Resumes-Fits closed fits (code_crashes d text) = fits
Resumes-Fits closed fits (code_wakes a d w ts h) = SubmitWakes-Truthful closed h
Resumes-Fits closed fits (password_goes g d text a h s) = tt
Resumes-Fits closed fits (password_ends g d text e ts r) = Receives-Truthful closed r
Resumes-Fits closed fits (password_leaves g d text e) = tt
Resumes-Fits closed fits (password_crashes d text) = fits
Resumes-Fits closed fits (password_wakes d w ts h) = EndWakes-Truthful closed h
Resumes-Fits closed fits (qr_clears g p e ts r) = tt
Resumes-Fits closed fits (qr_leaves g p e) = tt
Resumes-Fits closed fits (qr_launches g a h) = tt
Resumes-Fits closed fits (qr_wakes g w ts h) = tt

abbrev AllFit : Net → Type 0
AllFit n = (j : ℕ) (q : Request) → n.requests j ≡ some q → Fits n.attempts q

Fits-put :
    (f : Flow) (n : Net) (ts : Attempts) (i : ℕ) (q : Request)
    → Evolves f n.attempts ts
    → Fits ts q
    → AllFit n
    → AllFit (record { flow = f; attempts = ts; requests = put i q n.requests })
Fits-put f n ts i q ev fits all j q' h = elim (Bool-cases (j == i)) [
  | inl t ↦
      let h' : some q ≡ some q' = rw t at h in
      let same : q ≡ q' = cc in subst (λ z. Fits ts z) same fits
  | inr t ↦ Fits-Evolves f n.attempts ts q' ev (all j q' (sym (put-other i j q n.requests t) ∙ h))
]

Step-AllFit : {n n' : Net} → Step n n' → Reachable n → AllFit n → AllFit n'
Step-AllFit (works n g a a' f h w) r all = λ j q e.
    Fits-Evolves f n.attempts _ q (Step-Goes (works n g a a' f h w) (Reachable-Rooms n r)).1
      (all j q e)
Step-AllFit (opens n i f ts q small h o) r all =
    Fits-put f n ts i q (Step-Goes (opens n i f ts q small h o) (Reachable-Rooms n r)).1
      (Opens-Fits r o) all
Step-AllFit (resumes n i p f ts q small h s) r all =
    Fits-put f n ts i q (Step-Goes (resumes n i p f ts q small h s) (Reachable-Rooms n r)).1
      (Resumes-Fits (Reachable-Rooms n r).closed (all i p h) s) all

Steps-AllFit : {n n' : Net} → Steps n n' → n ≡ new_net → AllFit n'
Steps-AllFit (here n) e =
    λ j q h. let nobody : n.requests j ≡ none = λ i. (e i).requests j in absurd (cc)
Steps-AllFit (next n n' n'' l s) e = Step-AllFit s (subst (λ z. Steps z n') e l) (Steps-AllFit l e)

-- In every reachable state, under every interleaving: no SubmitCode or SubmitPassword has panicked; and
-- one that got past its check and answered nil was told the outcome of the attempt that it submitted
-- to, whose goroutine has ended with nil.
pub submit-Truthful :
    (n : Net) (i : ℕ)
    → Reachable n
    → (n.requests i ≢ some crashed)
      × ((g : ℕ) → n.requests i ≡ some (answered (some g) none) → LoggedIn n.attempts g)
submit-Truthful n i r =
    (λ h. Steps-AllFit r refl i crashed h, λ g h. Steps-AllFit r refl i (answered (some g) none) h)
