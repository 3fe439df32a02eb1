-- ===== src/Auth/Channels/Invariant.antt =====
-- What holds of the attempts between the steps.
use telecollection.Prelude.{
  ℕ, suc, ◌<◌, ◌^◌, ◌≡◌, refl, Bool-cases, arith, Bytes, true, ◌⊎◌, inl, inr, Option, none, some,
  [], ◌∷◌, ◌++◌, Error,
}
use telecollection.Auth.{
  Flow, wait_code, wait_password, reset_locked, start_qr, StartWake, QrWake, SubmitWake, EndWake,
}
use telecollection.Auth.Steps.{by_code, by_qr}
use telecollection.Auth.Authenticator.{request_code, request_password}
use telecollection.Auth.Invariant.{next_gen, started, start_login-ok}
use telecollection.Auth.Attempts.{
  not_launched, running, in_code, in_password, Attempt, Attempts, put, new_attempt, Work, asks_code,
  asks_password, leaves_code, leaves_password, shows_url, returns, records, sends, Receives,
  StartWakes, by_request, by_end, by_ctx, SubmitWakes, by_password, by_finish, by_leaving, EndWakes,
  by_outcome, by_giving_up, QrWakes, by_url, by_failure, by_leave,
}
use telecollection.Auth.Channels.{
  Request, Net, new_net, Opens, login, login_refused, code, code_refused, password,
  password_refused, qr, qr_behind, out, Resumes, login_wakes, code_goes, code_ends, code_leaves,
  code_crashes, code_wakes, password_goes, password_ends, password_leaves, password_crashes,
  password_wakes, qr_clears, qr_leaves, qr_launches, qr_wakes, Step, works, opens, resumes, Steps,
  here, next, Reachable,
}
use telecollection.Auth.Channels.Contexts.{
  Held, Grows, Grows-refl, logout-Grows, started-Grows, start_qr-Grows, transition-Grows,
  finish_attempt-Grows, start_login_wait-Grows, await_previous-Grows, start_qr_wait-Grows,
}
use telecollection.Auth.Channels.Moves.{
  by_work, loses_url, takes, launches, Evolves, Evolves-refl, Evolves-put, Evolves-new,
  Receives-Evolves, Change-back, Change-none, alive, Moves-alive, Closed, Moves-Closed,
}

-- Attempts to come are not there; one that still has to end has a context that is cancelled or can be;
-- and each `done` is closed to all but the outcome.
pub record Rooms (f : Flow) (ts : Attempts) : Type 0 where
  pub fresh : (g : ℕ) → f.gen < g → ts g ≡ none
  pub held : (g : ℕ) (a : Attempt) → ts g ≡ some a → alive a.stage ≡ true → Held f g
  pub closed : (g : ℕ) (a : Attempt) → ts g ≡ some a → Closed a

module _ (f f' : Flow) (ts ts' : Attempts) (grows : Grows f f') (ev : Evolves f' ts ts')
    (rooms : Rooms f ts) where
  fresh_after : (g : ℕ) → f'.gen < g → ts' g ≡ none
  fresh_after g h = elim (Change-none (ev g) (rooms.fresh g (omega (arith, grows.gen)))) [
    | inl e ↦ e
    | inr e ↦ absurd (omega (arith, e))
  ]

  Held-after : (g : ℕ) (a : Attempt) → ts' g ≡ some a → alive a.stage ≡ true → Held f' g
  Held-after g a h l = elim (Change-back a (ev g) h) [
    | inl (b, e, m) ↦ grows.held g (rooms.held g b e (Moves-alive m l))
    | inr (e, n, x, c) ↦ inl (x, c)
  ]

  Closed-after : (g : ℕ) (a : Attempt) → ts' g ≡ some a → Closed a
  Closed-after g a h = elim (Change-back a (ev g) h) [
    | inl (b, e, m) ↦ Moves-Closed m (rooms.closed g b e)
    | inr (e, n, x, c) ↦ λ o q. cc
  ]

  Rooms-after : Rooms f' ts'
  Rooms-after = record { fresh = fresh_after; held = Held-after; closed = Closed-after }

-- What a step does to the flow and to the attempts.
abbrev pub Goes : Flow → Attempts → Flow → Attempts → Type 0
Goes f ts f' ts' = Grows f f' × Evolves f' ts ts'

Work-Grows :
    {g : ℕ} {f : Flow} {a : Attempt} {f' : Flow} {a' : Attempt} → Work g f a f' a' → Grows f f'
unfolding request_code request_password
Work-Grows {g} (asks_code f a own s k) = elim (Bool-cases a.asked_code) [
  | inl t ↦ rw t (Grows-refl f)
  | inr t ↦ rw t (transition-Grows g wait_code f)
]
Work-Grows {g} (asks_password f a own s k) = elim (Bool-cases a.asked_password) [
  | inl t ↦ rw t (Grows-refl f)
  | inr t ↦ rw t (transition-Grows g wait_password f)
]
Work-Grows (leaves_code f a s c) = Grows-refl f
Work-Grows (leaves_password f a s c) = Grows-refl f
Work-Grows (shows_url f a u s k) = Grows-refl f
Work-Grows (returns f a e s) = Grows-refl f
Work-Grows {g} (records f a e s) = finish_attempt-Grows g e f
Work-Grows (sends f a e s d) = Grows-refl f

module _ (n : Net) (small : suc n.flow.gen < 2 ^ 64) (rooms : Rooms n.flow n.attempts) where
  start_qr-new :
      Goes n.flow n.attempts
        (start_qr n.flow).1
        (put (start_qr n.flow).0.0 (new_attempt by_qr [] not_launched) n.attempts)
  unfolding start_qr reset_locked
  start_qr-new = (
    start_qr-Grows n.flow small,
    Evolves-new _ n.attempts _ by_qr [] not_launched
        (rooms.fresh _ (omega (arith, next_gen n.flow.gen small))) (inr refl) refl refl,
  )

  pub Opens-Goes :
      {f : Flow} {ts : Attempts} {q : Request} → Opens n f ts q → Goes n.flow n.attempts f ts
  Opens-Goes (login phone g f h) =
      let (idle, eg, ef) = start_login-ok n.flow f phone g small h in
      rw (eg, ef)
        (
          started-Grows n.flow,
          Evolves-new (started n.flow) n.attempts (suc n.flow.gen) by_code phone running
              (rooms.fresh _ (omega arith)) (inl refl) refl refl,
        )
  Opens-Goes (login_refused phone e h) = (Grows-refl n.flow, Evolves-refl n.flow n.attempts)
  Opens-Goes (code a d t h) = (Grows-refl n.flow, Evolves-refl n.flow n.attempts)
  Opens-Goes (code_refused e h) = (Grows-refl n.flow, Evolves-refl n.flow n.attempts)
  Opens-Goes (password a d t h) = (Grows-refl n.flow, Evolves-refl n.flow n.attempts)
  Opens-Goes (password_refused e h) = (Grows-refl n.flow, Evolves-refl n.flow n.attempts)
  Opens-Goes (qr h) = start_qr-new
  Opens-Goes (qr_behind p h) = start_qr-new
  Opens-Goes out = (logout-Grows n.flow small, Evolves-refl _ n.attempts)

  receiving :
      {ts : Attempts} {d : Option ℕ} {e : Option Error}
      → Receives n.attempts d e ts
      → Goes n.flow n.attempts n.flow ts
  receiving r = (Grows-refl n.flow, Receives-Evolves n.flow r)

  idling : Goes n.flow n.attempts n.flow n.attempts
  idling = (Grows-refl n.flow, Evolves-refl n.flow n.attempts)

  StartWakes-Evolves :
      (f : Flow) {g : ℕ} {w : StartWake} {ts : Attempts}
      → StartWakes n.attempts g w ts
      → Evolves f n.attempts ts
  StartWakes-Evolves f (by_request a h r) = Evolves-refl f n.attempts
  StartWakes-Evolves f (by_end e ts r) = Receives-Evolves f r
  StartWakes-Evolves f (by_ctx e) = Evolves-refl f n.attempts

  QrWakes-Evolves :
      (f : Flow) {g : ℕ} {w : QrWake} {ts : Attempts}
      → QrWakes n.attempts g w ts
      → Evolves f n.attempts ts
  QrWakes-Evolves f {g} (by_url a u h r) = Evolves-put f n.attempts g a _ h (loses_url a)
  QrWakes-Evolves f (by_failure e ts r) = Receives-Evolves f r
  QrWakes-Evolves f (by_leave e) = Evolves-refl f n.attempts

  SubmitWakes-Goes :
      {d auth : Option ℕ} {w : SubmitWake} {ts : Attempts}
      → SubmitWakes n.attempts d auth w ts
      → Goes n.flow n.attempts n.flow ts
  SubmitWakes-Goes (by_password g a h r) = idling
  SubmitWakes-Goes (by_finish a e ts r) = receiving r
  SubmitWakes-Goes (by_leaving a e) = idling

  EndWakes-Goes :
      {d : Option ℕ} {w : EndWake} {ts : Attempts}
      → EndWakes n.attempts d w ts
      → Goes n.flow n.attempts n.flow ts
  EndWakes-Goes (by_outcome e ts r) = receiving r
  EndWakes-Goes (by_giving_up e) = idling

  taking :
      (g : ℕ) (a : Attempt) (text : Bytes)
      → n.attempts g ≡ some a
      → (a.stage ≡ in_code) ⊎ (a.stage ≡ in_password)
      → Goes n.flow n.attempts n.flow
          (put g (record a { stage = running; received = a.received ++ text ∷ [] }) n.attempts)
  taking g a text h s = (Grows-refl n.flow, Evolves-put n.flow n.attempts g a _ h (takes a text s))

  pub Resumes-Goes :
      {p : Request} {f : Flow} {ts : Attempts} {q : Request}
      → Resumes n p f ts q
      → Goes n.flow n.attempts f ts
  Resumes-Goes (login_wakes g w ts h) =
      (start_login_wait-Grows g w n.flow small, StartWakes-Evolves _ h)
  Resumes-Goes (code_goes g d text a h s) = taking g a text h (inl s)
  Resumes-Goes (code_ends g d text e ts r) = receiving r
  Resumes-Goes (code_leaves g d text e) = idling
  Resumes-Goes (code_crashes d text) = idling
  Resumes-Goes (code_wakes a d w ts h) = SubmitWakes-Goes h
  Resumes-Goes (password_goes g d text a h s) = taking g a text h (inr s)
  Resumes-Goes (password_ends g d text e ts r) = receiving r
  Resumes-Goes (password_leaves g d text e) = idling
  Resumes-Goes (password_crashes d text) = idling
  Resumes-Goes (password_wakes d w ts h) = EndWakes-Goes h
  Resumes-Goes (qr_clears g p e ts r) =
      (await_previous-Grows g none n.flow small, Receives-Evolves _ r)
  Resumes-Goes (qr_leaves g p e) =
      (await_previous-Grows g (some e) n.flow small, Evolves-refl _ n.attempts)
  Resumes-Goes (qr_launches g a h) =
      (Grows-refl n.flow, Evolves-put n.flow n.attempts g a _ h (launches a))
  Resumes-Goes (qr_wakes g w ts h) = (start_qr_wait-Grows g w n.flow small, QrWakes-Evolves _ h)

pub Step-Goes :
    {n n' : Net} → Step n n' → Rooms n.flow n.attempts → Goes n.flow n.attempts n'.flow n'.attempts
Step-Goes (works n g a a' f h w) rooms =
    (Work-Grows w, Evolves-put f n.attempts g a a' h (by_work g n.flow a f a' w))
Step-Goes (opens n i f ts q small h o) rooms = Opens-Goes n small rooms o
Step-Goes (resumes n i p f ts q small h r) rooms = Resumes-Goes n small rooms r

new_net-Rooms : Rooms new_net.flow new_net.attempts
new_net-Rooms = record { fresh = λ g h. refl; held = λ g a h l. cc; closed = λ g a h. cc }

Step-Rooms : {n n' : Net} → Step n n' → Rooms n.flow n.attempts → Rooms n'.flow n'.attempts
Step-Rooms {n} {n'} s rooms =
    let (grows, ev) = Step-Goes s rooms in
    Rooms-after n.flow n'.flow n.attempts n'.attempts grows ev rooms

pub Steps-Rooms : {n n' : Net} → Steps n n' → Rooms n.flow n.attempts → Rooms n'.flow n'.attempts
Steps-Rooms (here n) rooms = rooms
Steps-Rooms (next n n' n'' l s) rooms = Step-Rooms s (Steps-Rooms l rooms)

pub Reachable-Rooms : (n : Net) → Reachable n → Rooms n.flow n.attempts
Reachable-Rooms n r = Steps-Rooms r new_net-Rooms
