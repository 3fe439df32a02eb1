-- ===== src/Auth/Delivery.antt =====
-- What the requests that submit a value do with the authenticator.
use mathlib.Core.Path.{subst}
use telecollection.Prelude.{ℕ, ◌≡◌, ◌≢◌, sym, ◌⊎◌, arith, Option, some, ok, panicked}
use telecollection.Auth.{
  SubmitWake, proceeded, finished, gave_up, EndWake, submit_code, submit_password, deliver_code,
  deliver_password,
}
use telecollection.Auth.Steps.{World, Reachable}
use telecollection.Auth.Invariant.{submit-owner}

deliver_some :
    (g : ℕ) (first second : SubmitWake) (last : EndWake)
    → (deliver_code (some g) first second ≢ panicked)
      × (deliver_password (some g) first last ≢ panicked)
unfolding deliver_code deliver_password
deliver_some g proceeded second last = ground arith
deliver_some g (finished e) second last = ground arith
deliver_some g (gave_up e) second last = ground arith

-- In every reachable state, a SubmitCode or SubmitPassword that gets past its check does not panic,
-- whatever its waits wake up by.
pub submit-no_panic :
    (w : World) (a d : Option ℕ) (first second : SubmitWake) (last : EndWake)
    → Reachable w
    → (submit_code w.flow ≡ ok (a, d)) ⊎ (submit_password w.flow ≡ ok (a, d))
    → (deliver_code a first second ≢ panicked) × (deliver_password a first last ≢ panicked)
submit-no_panic w a d first second last r h =
    subst
      (λ z. (deliver_code z first second ≢ panicked) × (deliver_password z first last ≢ panicked))
      (sym (submit-owner w a d r h).0) (deliver_some w.flow.gen first second last)
