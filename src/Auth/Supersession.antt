-- ===== src/Auth/Supersession.antt =====
-- Attempts that were superseded.
use mathlib.Core.Path.{subst}
use telecollection.Prelude.{
  ℕ, suc, ◌<◌, ◌^◌, ◌≡◌, refl, ==_iff, Bool-cases, inl, inr, ◌==◌, arith, false, Option, none, some,
}
use telecollection.Auth.{logged_out, logout, reset_locked, finish_attempt, transition, abandon}
use telecollection.Auth.Steps.{
  World, by_code, Worker, goroutine, queued, launches, leaves_queue, set_worker, Late, asks_code,
  asks_password, ends, abandons, Reachable, Lates, now, later,
}
use telecollection.Auth.Invariant.{Inv, Late-Inv, logout-Inv, Reachable-Inv, next_gen}

-- No goroutine has the Flow, which is logged out.
record Silent (w : World) : Type 0 where
  inv : Inv w
  gone : w.workers w.flow.gen ≡ none
  state : w.flow.state ≡ logged_out
  idle : w.flow.in_progress ≡ false

logout-Silent :
    (w : World) → suc w.flow.gen < 2 ^ 64 → Inv w → Silent (record w { flow = logout w.flow })
logout-Silent w h inv = record {
  inv = logout-Inv w h inv;
  gone =
      unfold logout reset_locked in
      rw (next_gen w.flow.gen h) (inv.fresh (suc w.flow.gen) (omega arith));
  state = unfold logout in refl;
  idle = unfold logout reset_locked in refl;
}

other_gen :
    (w : World) (g : ℕ) (k : Worker)
    → w.workers w.flow.gen ≡ none
    → w.workers g ≡ some k
    → (w.flow.gen == g) ≡ false
other_gen w g k gone h = elim (Bool-cases (w.flow.gen == g)) [
  | inl t ↦ cc (subst (λ z. w.workers z ≡ none) ((==_iff w.flow.gen g).0 t) gone)
  | inr t ↦ t
]

still_gone : (g x : ℕ) (ws : ℕ → Option Worker) → ws x ≡ none → set_worker g none ws x ≡ none
still_gone g x ws h = ground arith

Late-Silent : (w w' : World) → Late w w' → Silent w → Silent w'
Late-Silent _ _ (asks_code w g h) s = record {
  inv = Late-Inv _ _ (asks_code w g h) s.inv;
  gone = unfold transition in rw (other_gen w g (goroutine by_code) s.gone h) s.gone;
  state = unfold transition in rw (other_gen w g (goroutine by_code) s.gone h) s.state;
  idle = unfold transition in rw (other_gen w g (goroutine by_code) s.gone h) s.idle;
}
Late-Silent _ _ (asks_password w g h) s = record {
  inv = Late-Inv _ _ (asks_password w g h) s.inv;
  gone = unfold transition in rw (other_gen w g (goroutine by_code) s.gone h) s.gone;
  state = unfold transition in rw (other_gen w g (goroutine by_code) s.gone h) s.state;
  idle = unfold transition in rw (other_gen w g (goroutine by_code) s.gone h) s.idle;
}
Late-Silent _ _ (ends w g k e h) s = record {
  inv = Late-Inv _ _ (ends w g k e h) s.inv;
  gone =
      unfold finish_attempt in
      rw (other_gen w g (goroutine k) s.gone h) (still_gone g w.flow.gen w.workers s.gone);
  state = unfold finish_attempt in rw (other_gen w g (goroutine k) s.gone h) s.state;
  idle = unfold finish_attempt in rw (other_gen w g (goroutine k) s.gone h) s.idle;
}
Late-Silent _ _ (launches w g k h) s = record {
  inv = Late-Inv _ _ (launches w g k h) s.inv;
  gone = rw (other_gen w g (queued k) s.gone h) s.gone;
  state = s.state;
  idle = s.idle;
}
Late-Silent _ _ (leaves_queue w g k l h) s = record {
  inv = Late-Inv _ _ (leaves_queue w g k l h) s.inv;
  gone =
      unfold abandon in
      rw (other_gen w g (queued k) s.gone h) (still_gone g w.flow.gen w.workers s.gone);
  state = unfold abandon in rw (other_gen w g (queued k) s.gone h) s.state;
  idle = unfold abandon in rw (other_gen w g (queued k) s.gone h) s.idle;
}
Late-Silent _ _ (abandons w g h) s = elim (Bool-cases (w.flow.gen == g)) [
  | inl t ↦ unfold abandon in rw t (logout-Silent w h s.inv)
  | inr t ↦ unfold abandon in rw t s
]

Lates-Silent : (w w' : World) → Lates w w' → Silent w → Silent w'
Lates-Silent _ _ (now w) s = s
Lates-Silent _ _ (later w w' w'' l h) s = Late-Silent w' w'' h (Lates-Silent w w' l s)

-- After a Logout in a reachable state, and while nobody starts an attempt or logs out, the state stays
-- LoggedOut with no attempt in progress, whatever the goroutines and the abandoned requests of earlier
-- attempts still do. Fewer than 2^64 attempts were made.
pub logout-silences :
    (w w' : World)
    → Reachable w
    → suc w.flow.gen < 2 ^ 64
    → Lates (record w { flow = logout w.flow }) w'
    → (w'.flow.state ≡ logged_out) × (w'.flow.in_progress ≡ false)
logout-silences w w' r h l =
    let s =
      Lates-Silent (record w { flow = logout w.flow }) w' l
        (logout-Silent w h (Reachable-Inv w r)) in
    (s.state, s.idle)
