-- ===== src/Auth/Channels/Unwinding.antt =====
-- No goroutine is left behind: a superseded one can end by itself.
use telecollection.Prelude.{
  ℕ, ◌≡◌, ◌≢◌, refl, ◌==◌, ==_iff, Bool-cases, arith, true, ◌⊎◌, inl, inr, Option, none, some,
  Option-cases, Error,
}
use telecollection.Auth.{Flow, finish_attempt}
use telecollection.Auth.Attempts.{
  running, in_code, in_password, returned, recorded, over, Attempt, put, is_cancelled, Work,
  leaves_code, leaves_password, returns, records, sends,
}
use telecollection.Auth.Channels.{Net, works, Steps, here, next, Reachable}
use telecollection.Auth.Channels.Moves.{Over, Closed, put-same}
use telecollection.Auth.Channels.Contexts.{Held}
use telecollection.Auth.Channels.Invariant.{Reachable-Rooms}

-- The goroutine of attempt `g` has ended with `e`, which its `done` holds, and neither the flow nor
-- a request has changed.
pub record Unwound (n n' : Net) (g : ℕ) (e : Option Error) : Type 0 where
  pub steps : Steps n n'
  pub attempt : Attempt
  pub there : n'.attempts g ≡ some attempt
  pub ended : Over e attempt
  pub sent : attempt.done ≡ some e
  pub flow : n'.flow ≡ n.flow
  pub requests : n'.requests ≡ n.requests

superseded : (g : ℕ) (e : Option Error) (f : Flow) → f.gen ≢ g → finish_attempt g e f ≡ f
unfolding finish_attempt
superseded g e f h = elim (Bool-cases (f.gen == g)) [
  | inl t ↦ absurd (h ((==_iff f.gen g).0 t))
  | inr t ↦ rw t refl
]

cancelled : (f : Flow) (g : ℕ) → Held f g → f.gen ≢ g → is_cancelled g f.cancelled ≡ true
cancelled f g (inl (e, c)) h = absurd (h e)
cancelled f g (inr c) h = c

unsent : (a : Attempt) → Closed a → (a.stage ≡ in_code) ⊎ (a.stage ≡ in_password) → a.done ≡ none
unsent a c s = elim (Option-cases a.done) [ inl h ↦ h | inr (e, h) ↦ let o = c e h in ground arith ]

module _ (n : Net) (g : ℕ) (a : Attempt) (e : Option Error) (there : n.attempts g ≡ some a) where
  leaves :
      (a.stage ≡ in_code) ⊎ (a.stage ≡ in_password)
      → is_cancelled g n.flow.cancelled ≡ true
      → Work g n.flow a n.flow (record a { stage = running })
  leaves (inl s) c = leaves_code n.flow a s (inl c)
  leaves (inr s) c = leaves_password n.flow a s (inl c)

  abbrev after : Attempt → Net → Net
  after b m = record m { attempts = put g b m.attempts }

  abbrev left : Net
  left = after (record a { stage = running }) n

  abbrev back : Net
  back = after (record a { stage = returned e }) left

  abbrev noted : Net
  noted = record (after (record a { stage = recorded e }) back) { flow = finish_attempt g e n.flow }

  abbrev told : Net
  told = after (record a { stage = over e; done = some e }) noted

  unwinding :
      (a.stage ≡ in_code) ⊎ (a.stage ≡ in_password)
      → is_cancelled g n.flow.cancelled ≡ true
      → a.done ≡ none
      → Steps n told
  unwinding s c d =
      next n noted told
        (next n back noted
          (next n left back
            (next n n left (here n)
              (works n g a (record a { stage = running }) n.flow there (leaves s c)))
            (works left g (record a { stage = running }) (record a { stage = returned e }) n.flow
              (put-same g _ n.attempts) (returns n.flow (record a { stage = running }) e refl)))
          (works back g (record a { stage = returned e }) (record a { stage = recorded e }) _
            (put-same g _ left.attempts) (records n.flow (record a { stage = returned e }) e refl)))
        (works noted g (record a { stage = recorded e })
          (record a { stage = over e; done = some e }) noted.flow (put-same g _ back.attempts)
          (sends noted.flow (record a { stage = recorded e }) e refl d))

-- In every reachable state, a goroutine that waits in Code or Password for an attempt that was
-- superseded, logged out or abandoned can end by steps of its own, with whatever outcome gotd makes of
-- it: its send to `done` does not block, and the flow and the requests stay as they are.
pub superseded-Unwound :
    (n : Net) (g : ℕ) (a : Attempt) (e : Option Error)
    → Reachable n
    → n.attempts g ≡ some a
    → (a.stage ≡ in_code) ⊎ (a.stage ≡ in_password)
    → n.flow.gen ≢ g
    → (n' : Net) × Unwound n n' g e
superseded-Unwound n g a e r there s other =
    let rooms = Reachable-Rooms n r in
    let held = rooms.held g a there (elim s [ inl t ↦ rw t refl | inr t ↦ rw t refl ]) in
    (
      told n g a e there,
      record {
        steps =
            unwinding n g a e there s (cancelled n.flow g held other)
              (unsent a (rooms.closed g a there) s);
        attempt = record a { stage = over e; done = some e };
        there = put-same g _ (noted n g a e there).attempts;
        ended = refl;
        sent = refl;
        flow = superseded g e n.flow other;
        requests = refl;
      },
    )
