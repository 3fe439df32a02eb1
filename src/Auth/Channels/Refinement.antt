-- ===== src/Auth/Channels/Refinement.antt =====
-- The states with channels and requests, seen as states of the critical sections alone.
use mathlib.Core.Path.{subst}
use telecollection.Prelude.{
  ℕ, suc, ◌<◌, ◌^◌, ◌≡◌, refl, sym, ◌∙◌, Bool-cases, inl, inr, Option, none, some, [], Error,
}
use telecollection.Auth.{
  Flow, start_qr, finish_attempt, abandon, StartWake, code_requested, ended, ctx_done,
  start_login_wait, await_previous, QrWake, url, qr_ended, qr_ctx_done, start_qr_wait,
}
use telecollection.Auth.Steps
use telecollection.Auth.Steps.{
  World, Worker, goroutine, launches, by_code, by_qr, set_worker, asks_code, asks_password, ends,
  abandons, goes_on, starts_login, starts_qr, logs_out, at_start, step,
}
use telecollection.Auth.Authenticator.{request_code, request_password}
use telecollection.Auth.Attempts.{
  not_launched, running, returned, Attempt, Attempts, put, new_attempt, authenticator, Work,
  leaves_code, leaves_password, shows_url, returns, records, sends,
}
use telecollection.Auth.Channels.{
  Request, Net, Opens, login, login_refused, code, code_refused, password, password_refused, qr,
  qr_behind, out, Resumes, login_wakes, code_goes, code_ends, code_leaves, code_crashes, code_wakes,
  password_goes, password_ends, password_leaves, password_crashes, password_wakes, qr_clears,
  qr_leaves, qr_launches, qr_wakes, Step, works, opens, resumes, Steps, here, next, Reachable,
}
use telecollection.Auth.Channels.Workers.{
  workers_of, workers-put, quiet-put, Receives-quiet, StartWakes-quiet, SubmitWakes-quiet,
  EndWakes-quiet, QrWakes-quiet, launched-worker,
}

-- The state without the channels and the requests.
abbrev pub abstract : Net → World
abstract n = record { flow = n.flow; workers = workers_of n.attempts }

-- The states of `Auth.Steps` with this flow and these workers.
abbrev Seen : Flow → (ℕ → Option Worker) → Type 0
Seen f ws = Steps.Reachable (record { flow = f; workers = ws })

Seen-as : (f : Flow) {ws ws' : ℕ → Option Worker} → ws' ≡ ws → Seen f ws → Seen f ws'
Seen-as f e s = subst (λ z. Seen f z) (sym e) s

module _ (f : Flow) (ws : ℕ → Option Worker) (small : suc f.gen < 2 ^ 64) (seen : Seen f ws) where
  Seen-abandon : (g : ℕ) → Seen (abandon g f) ws
  Seen-abandon g =
      step _ _ seen (goes_on _ _ (abandons (record { flow = f; workers = ws }) g small))

  Seen-login : (g : ℕ) (w : StartWake) → Seen (start_login_wait g w f).1 ws
  unfolding start_login_wait
  Seen-login g code_requested = seen
  Seen-login g (ended e) = seen
  Seen-login g (ctx_done e) = Seen-abandon g

  Seen-previous : (g : ℕ) (e : Option Error) → Seen (await_previous g e f).1 ws
  unfolding await_previous
  Seen-previous g none = seen
  Seen-previous g (some e) = Seen-abandon g

  Seen-qr : (g : ℕ) (w : QrWake) → Seen (start_qr_wait g w f).1 ws
  unfolding start_qr_wait
  Seen-qr g (url u) = seen
  Seen-qr g (qr_ended none) = seen
  Seen-qr g (qr_ended (some e)) = seen
  Seen-qr g (qr_ctx_done e) = Seen-abandon g

module _ (ts : Attempts) (g : ℕ) (f : Flow) (a : Attempt) (h : ts g ≡ some a)
    (seen : Seen f (workers_of ts)) where
  by_code_worker : a.stage ≡ running → a.kind ≡ by_code → workers_of ts g ≡ some (goroutine by_code)
  by_code_worker s k = rw (h, s, k) refl

  Seen-code :
      a.stage ≡ running
      → a.kind ≡ by_code
      → Seen (request_code (authenticator g a, f)).1 (workers_of ts)
  unfolding request_code
  Seen-code s k = elim (Bool-cases a.asked_code) [
    | inl t ↦ rw t seen
    | inr t ↦ rw t (step _ _ seen (goes_on _ _ (asks_code _ g (by_code_worker s k))))
  ]

  Seen-password :
      a.stage ≡ running
      → a.kind ≡ by_code
      → Seen (request_password (authenticator g a, f)).1 (workers_of ts)
  unfolding request_password
  Seen-password s k = elim (Bool-cases a.asked_password) [
    | inl t ↦ rw t seen
    | inr t ↦ rw t (step _ _ seen (goes_on _ _ (asks_password _ g (by_code_worker s k))))
  ]

  Seen-records :
      (e : Option Error)
      → a.stage ≡ returned e
      → Seen (finish_attempt g e f) (set_worker g none (workers_of ts))
  Seen-records e s = step _ _ seen (goes_on _ _ (ends _ g a.kind e (rw (h, s) refl)))

Work-Seen :
    (ts : Attempts) {g : ℕ} {f : Flow} {a : Attempt} {f' : Flow} {a' : Attempt}
    → Work g f a f' a'
    → ts g ≡ some a
    → Seen f (workers_of ts)
    → Seen f' (workers_of (put g a' ts))
Work-Seen ts {g} (Work.asks_code f a own s k) h seen =
    Seen-as _ (quiet-put ts g a _ h (rw s refl)) (Seen-code ts g f a h seen s k)
Work-Seen ts {g} (Work.asks_password f a own s k) h seen =
    Seen-as _ (quiet-put ts g a _ h (rw s refl)) (Seen-password ts g f a h seen s k)
Work-Seen ts {g} (leaves_code f a s c) h seen = Seen-as f (quiet-put ts g a _ h (rw s refl)) seen
Work-Seen ts {g} (leaves_password f a s c) h seen =
    Seen-as f (quiet-put ts g a _ h (rw s refl)) seen
Work-Seen ts {g} (shows_url f a u s k) h seen = Seen-as f (quiet-put ts g a _ h refl) seen
Work-Seen ts {g} (returns f a e s) h seen = Seen-as f (quiet-put ts g a _ h (rw s refl)) seen
Work-Seen ts {g} (records f a e s) h seen =
    Seen-as _ (workers-put ts g _) (Seen-records ts g f a h seen e s)
Work-Seen ts {g} (sends f a e s d) h seen = Seen-as f (quiet-put ts g a _ h (rw s refl)) seen

module _ (n : Net) (small : suc n.flow.gen < 2 ^ 64)
    (seen : Seen n.flow (workers_of n.attempts)) where
  Seen-start_qr :
      Seen
        (start_qr n.flow).1
        (workers_of (put (start_qr n.flow).0.0 (new_attempt by_qr [] not_launched) n.attempts))
  Seen-start_qr =
      Seen-as _ (workers-put n.attempts _ _) (step _ _ seen (starts_qr (abstract n) small))

  Opens-Seen : {f : Flow} {ts : Attempts} {q : Request} → Opens n f ts q → Seen f (workers_of ts)
  Opens-Seen (login phone g f h) =
      Seen-as f (workers-put n.attempts g _)
        (step _ _ seen (starts_login (abstract n) phone g f small h))
  Opens-Seen (login_refused phone e h) = seen
  Opens-Seen (code a d t h) = seen
  Opens-Seen (code_refused e h) = seen
  Opens-Seen (password a d t h) = seen
  Opens-Seen (password_refused e h) = seen
  Opens-Seen (qr h) = Seen-start_qr
  Opens-Seen (qr_behind p h) = Seen-start_qr
  Opens-Seen out = step _ _ seen (logs_out (abstract n) small)

  Resumes-Seen :
      {p : Request} {f : Flow} {ts : Attempts} {q : Request}
      → Resumes n p f ts q
      → Seen f (workers_of ts)
  Resumes-Seen (login_wakes g w ts h) =
      Seen-as _ (StartWakes-quiet h) (Seen-login n.flow _ small seen g w)
  Resumes-Seen (code_goes g d text a h s) =
      Seen-as _ (quiet-put n.attempts g a _ h (rw s refl)) seen
  Resumes-Seen (code_ends g d text e ts r) = Seen-as _ (Receives-quiet r) seen
  Resumes-Seen (code_leaves g d text e) = seen
  Resumes-Seen (code_crashes d text) = seen
  Resumes-Seen (code_wakes a d w ts h) = Seen-as _ (SubmitWakes-quiet h) seen
  Resumes-Seen (password_goes g d text a h s) =
      Seen-as _ (quiet-put n.attempts g a _ h (rw s refl)) seen
  Resumes-Seen (password_ends g d text e ts r) = Seen-as _ (Receives-quiet r) seen
  Resumes-Seen (password_leaves g d text e) = seen
  Resumes-Seen (password_crashes d text) = seen
  Resumes-Seen (password_wakes d w ts h) = Seen-as _ (EndWakes-quiet h) seen
  Resumes-Seen (qr_clears g p e ts r) =
      Seen-as _ (Receives-quiet r) (Seen-previous n.flow _ small seen g none)
  Resumes-Seen (qr_leaves g p e) = Seen-previous n.flow _ small seen g (some e)
  Resumes-Seen (qr_launches g a h) = elim (launched-worker a.stage a.kind) [
    | inl e ↦ Seen-as _ (quiet-put n.attempts g a _ h e) seen
    | inr (q, e) ↦
        Seen-as _ (workers-put n.attempts g _ ∙ rw e refl)
          (step _ _ seen (goes_on _ _ (launches (abstract n) g a.kind (rw (h, q) refl))))
  ]
  Resumes-Seen (qr_wakes g w ts h) = Seen-as _ (QrWakes-quiet h) (Seen-qr n.flow _ small seen g w)

Step-Reachable :
    {n n' : Net} → Step n n' → Steps.Reachable (abstract n) → Steps.Reachable (abstract n')
Step-Reachable (works n g a a' f h w) seen = Work-Seen n.attempts w h seen
Step-Reachable (opens n i f ts q small h o) seen = Opens-Seen n small seen o
Step-Reachable (resumes n i p f ts q small h r) seen = Resumes-Seen n small seen r

Steps-Reachable :
    {n n' : Net} → Steps n n' → Steps.Reachable (abstract n) → Steps.Reachable (abstract n')
Steps-Reachable (here n) seen = seen
Steps-Reachable (next n n' n'' l s) seen = Step-Reachable s (Steps-Reachable l seen)

-- For every state that is reachable with the requests and their channels, the flow and the goroutines
-- of it are reachable by the critical sections alone.
pub Reachable-abstract : (n : Net) → Reachable n → Steps.Reachable (abstract n)
Reachable-abstract n r = Steps-Reachable r at_start
