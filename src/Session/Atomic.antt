-- ===== src/Session/Atomic.antt =====
-- What StoreSession leaves at the session's path, after every call and whichever call fails.
use telecollection.Prelude.{
  ◌≡◌, ap, ◌∙◌, Bytes, false, Option, none, some, ◌⊎◌, inl, inr, [], All, ◌++◌, Result, ok, err,
  panicked, Action, Option-cases,
}
use telecollection.Prelude.Triples.{After, Triple, Triple-bind, Triple-wrapping}
use telecollection.Session.{
  file_perm, Entry, Files, Disk, is_path, put, next_fault, left_by, system_call, with_mode,
  extended, chmod, write, flush, rename, remove, create_temp, deferred, undo, or_else_do,
  replace_by, write_blob,
}
use telecollection.Session.Calls.{put-same, put-other, call-Triple}

abbrev pub sealed : Bytes → Option Entry
sealed blob = some (record { content = blob; mode = file_perm })

module _ (temp_name : Files → Bytes) (path blob : Bytes) (old : Option Entry) where
  -- The old session whole, or the new one with its mode.
  abbrev pub Whole : Files → Type 0
  Whole files = (files path ≡ old) ⊎ (files path ≡ sealed blob)

  abbrev pub Good : Disk → Type 0
  Good d = Whole d.files × All Whole d.history

  abbrev pub Stored : Disk → Type 0
  Stored d = (d.files path ≡ sealed blob) × All Whole d.history

  abbrev Unstored : Disk → Type 0
  Unstored d = (d.files path ≡ old) × All Whole d.history

  module _ (tmp : Bytes) (other : is_path tmp path ≡ false) where
    -- The temporary file holds `e`, and the session is the old one.
    abbrev Holds : Option Entry → Disk → Type 0
    Holds e d = (d.files tmp ≡ e) × Unstored d

    changing : (e : Option Entry) (d : Disk) → Unstored d → Unstored (left_by d (put tmp e d.files))
    changing e d (h, all) =
        let kept = put-other tmp path e d.files other ∙ h in (kept, (inl kept, all))

    failing : (e : Option Entry) (d : Disk) → Unstored d → Good (left_by d (put tmp e d.files))
    failing e d h = let (kept, all) = changing e d h in (inl kept, all)

    idle : (d : Disk) → Unstored d → Good (left_by d d.files)
    idle d (h, all) = (inl h, (inl h, all))

    chmod-Triple :
        (e : Entry)
        → Triple
            (Holds (some e))
            (chmod tmp file_perm)
            (λ a. Holds (some (record e { mode = file_perm })))
            Good
    unfolding chmod
    chmod-Triple e =
        call-Triple _ _
          (λ d (h, u). (put-same tmp _ d.files ∙ ap (with_mode file_perm) h, changing _ d u))
          (λ d f (h, u). idle d u)

    write-Triple :
        (e : Entry)
        → Triple
            (Holds (some e))
            (write tmp blob)
            (λ a. Holds (some (record e { content = e.content ++ blob })))
            Good
    unfolding write
    write-Triple e =
        call-Triple _ _
          (λ d (h, u). (put-same tmp _ d.files ∙ ap (extended blob) h, changing _ d u))
          (λ d f (h, u). failing _ d u)

    flush-Triple : (e : Option Entry) → Triple (Holds e) flush (λ a. Holds e) Good
    unfolding flush
    flush-Triple e =
        call-Triple _ _ (λ d (h, (u, all)). (h, (u, (inl u, all)))) (λ d f (h, u). idle d u)

    rename-Triple : Triple (Holds (sealed blob)) (rename tmp path) (λ a. Stored) Good
    unfolding rename
    rename-Triple =
        call-Triple _ _
          (λ d (h, (u, all)).
            let moved =
              put-other tmp path none (put path (d.files tmp) d.files) other
              ∙ put-same path (d.files tmp) d.files
              ∙ h in
            (moved, (inr moved, all)))
          (λ d f (h, u). idle d u)

    enforce-Triple : Triple Stored (chmod path file_perm) (λ a. Stored) Good
    unfolding chmod
    enforce-Triple =
        call-Triple _ _
          (λ d (h, all).
            let kept = put-same path _ d.files ∙ ap (with_mode file_perm) h in
            (kept, (inr kept, all)))
          (λ d f (h, all). (inr h, (inr h, all)))

    -- A close behind a failed call.
    flush-Good : (d : Disk) → Good d → Good (flush d).1
    unfolding flush system_call
    flush-Good d (w, all) = elim (Option-cases (next_fault d.faults)) [
      | inl t ↦ rw (t, system_call) (w, (w, all))
      | inr (f, t) ↦ rw (t, system_call) (w, (w, all))
    ]

    undo-After :
        (Q : Unit {0} → Disk → Type 0) (r : Result (Unit {0})) (d : Disk)
        → After Q Good (r, d)
        → After Q Good (undo flush r d)
    unfolding flush
    undo-After Q (ok a) d h = h
    undo-After Q (err e) d h = flush-Good d h
    undo-After Q panicked d h = h

    closing :
        {P : Disk → Type 0} {m : Action Disk (Unit {0})} {Q : Unit {0} → Disk → Type 0}
        → Triple P m Q Good
        → Triple P (or_else_do flush m) Q Good
    unfolding flush
    closing {m = m} {Q} tm = record { at = λ d h. undo-After Q (m d).0 (m d).1 (tm.at d h) }

    replace_by-Stored :
        Triple
          (Holds (some (record { content = []; mode = file_perm })))
          (replace_by temp_name path tmp blob)
          (λ a. Stored)
          Good
    unfolding replace_by
    replace_by-Stored =
        Triple-bind
          (Triple-wrapping _ (closing (chmod-Triple (record { content = []; mode = file_perm }))))
          (λ _.
            Triple-bind
              (Triple-wrapping _
                (closing (write-Triple (record { content = []; mode = file_perm }))))
              (λ _. Triple-bind (Triple-wrapping _ (closing (flush-Triple (sealed blob)))) (λ _.
                Triple-bind (Triple-wrapping _ (flush-Triple (sealed blob))) (λ _.
                  Triple-bind (Triple-wrapping _ rename-Triple)
                    (λ _. Triple-wrapping _ enforce-Triple)))))

    removing-Whole : (files : Files) → Whole files → Whole (put tmp none files)
    removing-Whole files (inl h) = inl (put-other tmp path none files other ∙ h)
    removing-Whole files (inr h) = inr (put-other tmp path none files other ∙ h)

    remove-Good : (d : Disk) → Good d → Good (remove tmp d).1
    unfolding remove system_call
    remove-Good d (w, all) = elim (Option-cases (next_fault d.faults)) [
      | inl t ↦ rw (t, system_call) (let w' = removing-Whole d.files w in (w', (w', all)))
      | inr (f, t) ↦ rw (t, system_call) (w, (w, all))
    ]

    remove-Stored : (d : Disk) → Stored d → Stored (remove tmp d).1
    unfolding remove system_call
    remove-Stored d (h, all) = elim (Option-cases (next_fault d.faults)) [
      | inl t ↦
          rw (t, system_call)
            (let h' = put-other tmp path none d.files other ∙ h in (h', (inr h', all)))
      | inr (f, t) ↦ rw (t, system_call) (h, (inr h, all))
    ]

    removed-After :
        (r : Result (Unit {0})) (d : Disk)
        → After (λ a. Stored) Good (r, d)
        → After (λ a. Stored) Good (r, (remove tmp d).1)
    unfolding remove
    removed-After (ok a) d h = remove-Stored d h
    removed-After (err e) d h = remove-Good d h
    removed-After panicked d h = remove-Good d h

    deferred-Stored :
        Triple
          (Holds (some (record { content = []; mode = file_perm })))
          (deferred (remove tmp) (replace_by temp_name path tmp blob))
          (λ a. Stored)
          Good
    unfolding remove replace_by
    deferred-Stored = record {
      at = λ d h.
          let q = replace_by temp_name path tmp blob d in
          removed-After q.0 q.1 (replace_by-Stored.at d h);
    }

  -- A new file, of another name.
  abbrev Created : Bytes → Disk → Type 0
  Created tmp d =
      (is_path tmp path ≡ false)
      × (d.files tmp ≡ some (record { content = []; mode = file_perm }))
      × Unstored d

  create_temp-Triple :
      ((files : Files) → is_path (temp_name files) path ≡ false)
      → Triple Unstored (create_temp temp_name) Created Good
  unfolding create_temp
  create_temp-Triple other =
      call-Triple _ _
        (λ d u. (
          other d.files,
          put-same (temp_name d.files) _ d.files,
          changing (temp_name d.files) (other d.files) _ d u,
        ))
        (λ d f (h, all). (inl h, (inl h, all)))

  Created-Stored :
      (tmp : Bytes)
      → Triple
          (Created tmp)
          (deferred (remove tmp) (replace_by temp_name path tmp blob))
          (λ a. Stored)
          Good
  unfolding remove replace_by
  Created-Stored tmp = record {
    at = λ d (other, held, u). (deferred-Stored tmp other).at d (held, u);
  }

  pub write_blob-Stored :
      ((files : Files) → is_path (temp_name files) path ≡ false)
      → Triple Unstored (write_blob temp_name path blob) (λ a. Stored) Good
  unfolding write_blob
  write_blob-Stored other =
      Triple-bind (Triple-wrapping _ (create_temp-Triple other)) Created-Stored
