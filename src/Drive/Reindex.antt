-- ===== src/Drive/Reindex.antt =====
-- What the reindexing does to the maps of a store that keeps its contract.
use mathlib.Core.Path.{subst}
use telecollection.Prelude.{
  ℤ, pos, ◌==ℤ◌, ==ℤ_iff, ==ℤ_refl, ◌≡◌, refl, sym, ◌∙◌, arith, Bool-cases, inl, inr, false, ◌&&◌,
  Option, none, some, find, if◌then◌else◌, ok, Action, wrapping, Keeps, Yields, Yields-bind,
  Yields-wrapping, Yields-lift, Yields-pure,
}
use telecollection.Strings.{Unicode}
use telecollection.Store.{File, Store}
use telecollection.Store
use telecollection.Store.Contract.{View, Same, FolderPut, FilePut, Contract, without_id}
use telecollection.Dialogs.{Folder, display_name}
use telecollection.Folders.{from_slicing}
use telecollection.Drive.{ensure_folder, or_record, folder_entry}

-- ensureFolder left the folder in the index, and nothing else was touched.
pub record Ensured (v w : View) (channel : ℤ) (g : Store.Folder) : Type 0 where
  pub found : w.folder (pos 0) channel ≡ some g
  pub folder : (x y : ℤ) → ((pos 0 ==ℤ x) && (channel ==ℤ y)) ≡ false → w.folder x y ≡ v.folder x y
  pub file : (x y : ℤ) → w.file x y ≡ v.file x y
  pub known : (old : Store.Folder) → v.folder (pos 0) channel ≡ some old → g ≡ old

module _ {S A : Type 0} (P : S → Type 0) (m : Action S A) where
  Keeps-at : (s : S) {a : A} {s' : S} → Keeps P m → P s → m s ≡ (ok a, s') → P s'
  Keeps-at s keep h e = subst (λ p. P p.1) e (keep.at s h)

module _ {D : Type 0} (store : Store D) {Valid : D → Type 0} {view : D → View}
    (c : Contract store Valid view) (d : D) (valid : Valid d) where
  pub listing_folders :
      (account : ℤ)
      → Yields (store.list_folders account) d (λ fs t.
        Valid t
        × Same (view d) (view t)
        × ((y : ℤ) → find (λ f. f.channel_id ==ℤ y) fs ≡ (view d).folder account y))
  listing_folders account = record {
    at = λ h.
        let (same, at) = c.list_folders account d valid h in
        (
          Keeps-at Valid (store.list_folders account) d (c.keeps.list_folders account) valid h,
          same,
          at,
        );
  }

  pub listing_files :
      (folder : ℤ)
      → Yields (store.list_files folder) d (λ fs t.
        Valid t
        × Same (view d) (view t)
        × ((y : ℤ) → find (λ f. f.message_id ==ℤ y) fs ≡ (view d).file folder y))
  listing_files folder = record {
    at = λ h.
        let (same, at) = c.list_files folder d valid h in
        (Keeps-at Valid (store.list_files folder) d (c.keeps.list_files folder) valid h, same, at);
  }

  pub putting_folder :
      (f : Store.Folder)
      → Yields (store.create_folder f) d (λ g t. Valid t × FolderPut (view d) (view t) f g)
  putting_folder f = record {
    at = λ h. (
      Keeps-at Valid (store.create_folder f) d (c.keeps.create_folder f) valid h,
      c.create_folder f d valid h,
    );
  }

  pub putting_file :
      (f : File) → Yields (store.upsert_file f) d (λ g t. Valid t × FilePut (view d) (view t) f g)
  putting_file f = record {
    at = λ h. (
      Keeps-at Valid (store.upsert_file f) d (c.keeps.upsert_file f) valid h,
      c.upsert_file f d valid h,
    );
  }

  pub deleting :
      (i : ℤ)
      → Yields (store.delete_file i) d (λ _ t.
        Valid t
        × ((x y : ℤ) → (view t).folder x y ≡ (view d).folder x y)
        × ((x y : ℤ) → (view t).file x y ≡ without_id i ((view d).file x y)))
  deleting i = record {
    at = λ h.
        let (a, b) = c.delete_file i d valid h in
        (Keeps-at Valid (store.delete_file i) d (c.keeps.delete_file i) valid h, a, b);
  }

Ensured-known :
    (v w : View) (channel : ℤ) (g : Store.Folder)
    → Same v w
    → v.folder (pos 0) channel ≡ some g
    → Ensured v w channel g
Ensured-known v w channel g same h = record {
  found = same.folder (pos 0) channel ∙ h;
  folder = λ x y n. same.folder x y;
  file = same.file;
  known = λ old e. cc;
}

Ensured-put :
    (v m w : View) (f g : Store.Folder)
    → f.tg_account_id ≡ pos 0
    → Same v m
    → v.folder (pos 0) f.channel_id ≡ none
    → FolderPut m w f g
    → Ensured v w f.channel_id g
Ensured-put v m w f g e same h put = record {
  found = put.folder (pos 0) f.channel_id ∙ rw (e, ==ℤ_refl (pos 0), ==ℤ_refl f.channel_id);
  folder = λ x y n. put.folder x y ∙ rw (e, n) (same.folder x y);
  file = λ x y. put.file x y ∙ same.file x y;
  known = λ old q. cc;
}

module _ (u : Unicode) {D : Type 0} (store : Store D) {Valid : D → Type 0} {view : D → View}
    (c : Contract store Valid view) where
  recording :
      (folder : Folder) (d t : D) (o : Option Store.Folder)
      → Valid t
      → Same (view d) (view t)
      → o ≡ (view d).folder (pos 0) folder.channel_id
      → Yields
          (or_record u store folder o)
          t
          (λ g w. Valid w × Ensured (view d) (view w) folder.channel_id g)
  recording folder d t (some g) valid same e =
      Yields-pure g (valid, Ensured-known (view d) (view t) folder.channel_id g same (sym e))
  recording folder d t none valid same e =
      Yields-lift (from_slicing (display_name u folder.title))
        (λ name.
          wrapping "drive: recording folder in index"
            (store.create_folder (folder_entry u store folder name)))
        (λ name h.
          Yields-wrapping "drive: recording folder in index"
            (store.create_folder (folder_entry u store folder name))
            (record {
              at = λ h'.
                  let (valid', put) =
                    (putting_folder store c t valid (folder_entry u store folder name)).at h' in
                  (
                    valid',
                    Ensured-put (view d) (view t) _ (folder_entry u store folder name) _ refl same
                        (sym e) put,
                  );
            }))

  pub ensuring :
      (folder : Folder) (d : D)
      → Valid d
      → Yields
          (ensure_folder u store folder)
          d
          (λ g t. Valid t × Ensured (view d) (view t) folder.channel_id g)
  unfolding ensure_folder
  ensuring folder d valid =
      Yields-bind _ _ (Yields-wrapping _ _ (listing_folders store c d valid (pos 0)))
        (λ fs t (valid', same, at). recording folder d t _ valid' same (at folder.channel_id))

-- The file under one key is gone, and no other one is touched.
pub record Gone (v w : View) (x y : ℤ) : Type 0 where
  pub folder : (a b : ℤ) → w.folder a b ≡ v.folder a b
  pub file : (a b : ℤ) → w.file a b ≡ (if (x ==ℤ a) && (y ==ℤ b) then none else v.file a b)

pub absent :
    (x y a b : ℤ) (v : View)
    → v.file x y ≡ none
    → v.file a b ≡ (if (x ==ℤ a) && (y ==ℤ b) then none else v.file a b)
absent x y a b v h = elim (Bool-cases ((x ==ℤ a) && (y ==ℤ b))) [
  | inl t ↦
      let ex : x ≡ a = ground (arith, ==ℤ_iff x a) in
      let ey : y ≡ b = ground (arith, ==ℤ_iff y b) in
      rw t (subst (λ z. v.file z b ≡ none) ex (subst (λ z. v.file x z ≡ none) ey h))
  | inr t ↦ rw t refl
]

module _ {D : Type 0} (store : Store D) {Valid : D → Type 0} {view : D → View}
    (c : Contract store Valid view) (d : D) (valid : Valid d) where
  pub only_file :
      (x y a b : ℤ) (f : File) (o : Option File)
      → (view d).file x y ≡ some f
      → (view d).file a b ≡ o
      → without_id f.id o ≡ (if (x ==ℤ a) && (y ==ℤ b) then none else o)
  only_file x y a b f none h e = ground arith
  only_file x y a b f (some g) h e =
      let (fx, fy) = c.file_key x y d f valid h in
      let (ga, gb) = c.file_key a b d g valid e in
      let same_id : f.id ≡ g.id → f ≡ g = λ q. c.file_id x y a b d f g valid h e q in
      let same_key : x ≡ a → y ≡ b → some f ≡ some g = λ p q.
        sym
          (subst (λ z. (view d).file z b ≡ some f) p (subst (λ z. (view d).file x z ≡ some f) q h))
        ∙ e in
      ground (arith, ==ℤ_iff x a, ==ℤ_iff y b, ==ℤ_iff g.id f.id)
