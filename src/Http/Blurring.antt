-- ===== src/Http/Blurring.antt =====
-- Services whose errors carry another text.
mod AuthAnswers
mod DriveAnswers
pub mod Silence
use mathlib.Core.Option
use telecollection.Prelude.{
  ◌≡◌, refl, ◌⊎◌, inl, inr, Option, none, some, Result, ok, err, panicked, Error, Action, ◌>>=◌,
}
use telecollection.Http.Response.{Response}
use telecollection.Http.AuthRoutes.{AuthService, Handler, caught, call}
use telecollection.Http.DriveRoutes.{DriveService}

module _ (blur : Error → Error) where
  abbrev pub blurred_result : {A : Type 0} → Result A → Result A
  blurred_result (ok a) = ok a
  blurred_result (err e) = err (blur e)
  blurred_result panicked = panicked

  abbrev pub blurring : {S A : Type 0} → Action S A → Action S A
  blurring m s = let (r, s') = m s in (blurred_result r, s')

  abbrev pub blurred_auth : {S : Type 0} → AuthService S → AuthService S
  blurred_auth svc = record {
    start_login = λ phone. blurring (svc.start_login phone);
    submit_code = λ code. blurring (svc.submit_code code);
    submit_password = λ password. blurring (svc.submit_password password);
    start_qr = blurring svc.start_qr;
    status = λ s. let ((st, e), s') = svc.status s in ((st, Option.map blur e), s');
    logout = blurring svc.logout;
  }

  abbrev pub blurred_drive : {R S : Type 0} → DriveService R S → DriveService R S
  blurred_drive svc = record {
    list_folders = blurring svc.list_folders;
    create_folder = λ name. blurring (svc.create_folder name);
    rename_folder = λ f name. blurring (svc.rename_folder f name);
    delete_folder = λ f. blurring (svc.delete_folder f);
    list_files = λ f. blurring (svc.list_files f);
    upload_file = λ f name r size mime. blurring (svc.upload_file f name r size mime);
    download_file = λ f id write. blurring (svc.download_file f id write);
    rename_file = λ f id name. blurring (svc.rename_file f id name);
    move_file = λ src id dst. blurring (svc.move_file src id dst);
    delete_file = λ f id. blurring (svc.delete_file f id);
  }

  module _ {S A : Type 0} (k : Error ⊎ A → Handler S)
      (deaf : (e : Error) → k (inl (blur e)) ≡ k (inl e)) where
    caught-blurred :
        (r : Result A) (w : Response) (s : S)
        → (◌>>=◌ {A = Error ⊎ A} (λ x. (caught (blurred_result r), x)) k) (w, s)
          ≡ (◌>>=◌ {A = Error ⊎ A} (λ x. (caught r, x)) k) (w, s)
    caught-blurred (ok a) w s = refl
    caught-blurred (err e) w s = λ i. deaf e i (w, s)
    caught-blurred panicked w s = refl

    -- What follows a call and does not look at the text of an error.
    pub call-blurred : (m : Action S A) → (call (blurring m) >>= k) ≡ (call m >>= k)
    call-blurred m = λ i (w, s). caught-blurred (m s).0 w (m s).1 i
