-- ===== src/Upload/Metadata.antt =====
-- What an upload reads off the reply, and returns.
use telecollection.Prelude.{
  ℤ, pos, ltb_ℤ, ◌≡◌, refl, ap, arith, Bytes, is_empty, Bool, false, Option, none, some, List, [],
  ◌∷◌, ◌++◌, All, ok, Action,
}
use telecollection.Telegram.{Api, InputChannel, Update, Updates, updates, Chat}
use telecollection.Store.{File}
use telecollection.Dialogs.{Folder}
use telecollection.Upload.{
  SentDocument, update_sent, parse_sent_document, file, first_sent, or_else,
}

-- The update that carries the document, and those before it, which carry none.
pub record FirstSent (us : List Update) (sent : SentDocument) : Type 0 where
  pub before : List Update
  pub carrier : Update
  pub after : List Update
  pub split : us ≡ before ++ carrier ∷ after
  pub empty : All (λ u. update_sent u ≡ none) before
  pub found : update_sent carrier ≡ some sent

cons-FirstSent :
    (u : Update) (us : List Update) (sent : SentDocument)
    → update_sent u ≡ none
    → FirstSent us sent
    → FirstSent (u ∷ us) sent
cons-FirstSent u us sent h f = record {
  before = u ∷ f.before;
  carrier = f.carrier;
  after = f.after;
  split = ap (λ l. u ∷ l) f.split;
  empty = (h, f.empty);
  found = f.found;
}

first_sent-cases :
    (o : Option SentDocument) (u : Update) (us : List Update) (sent : SentDocument)
    → update_sent u ≡ o
    → (first_sent us ≡ ok sent → FirstSent us sent)
    → or_else o (first_sent us) ≡ ok sent
    → FirstSent (u ∷ us) sent
first_sent-cases none u us sent e later h = cons-FirstSent u us sent e (later h)
first_sent-cases (some a) u us sent e later h = record {
  before = [];
  carrier = u;
  after = us;
  split = refl;
  empty = tt;
  found = cc;
}

first_sent-FirstSent :
    (us : List Update) (sent : SentDocument) → first_sent us ≡ ok sent → FirstSent us sent
unfolding first_sent
first_sent-FirstSent [] sent h = cc
first_sent-FirstSent (u ∷ us) sent h =
    first_sent-cases (update_sent u) u us sent refl (first_sent-FirstSent us sent) h

-- The document that parseSentDocument returns is the one of the first update that carries a full
-- document in a message: the updates before it carry none.
pub parse_sent_document-FirstSent :
    (us : List Update) (chats : List Chat) (sent : SentDocument)
    → parse_sent_document (updates us chats) ≡ ok sent
    → FirstSent us sent
unfolding parse_sent_document
parse_sent_document-FirstSent us chats sent h = first_sent-FirstSent us sent h

module _ {T R F : Type 0} (upload_bytes : Api T → Bytes → R → ℤ → Action T F)
    (send_media : Api T
      → InputChannel
      → F
      → (filename mime : Bytes) → Bool
      → Action T Updates) where
  -- A file that an upload returns has the name of the request, no folder, a size that is not negative
  -- and a type that is not empty, whatever Telegram echoes; and the request had a client, a reader, a
  -- size that is not negative and a name.
  pub file-metadata :
      (api : Option (Api T)) (folder : Folder) (name : Bytes) (r : Option R) (size : ℤ)
      (mime : Bytes) (t t' : T) (f : File)
      → file upload_bytes send_media api folder name r size mime t ≡ (ok f, t')
      → (f.name ≡ name)
        × (f.folder_id ≡ pos 0)
        × (ltb_ℤ f.size (pos 0) ≡ false)
        × (is_empty f.mime ≡ false)
        × (ltb_ℤ size (pos 0) ≡ false)
        × (is_empty name ≡ false)
  unfolding file
  file-metadata none folder name r size mime t t' f h = cc
  file-metadata (some api) folder name none size mime t t' f h = cc
  file-metadata (some api) folder name (some r) size mime t t' f h = ground arith
