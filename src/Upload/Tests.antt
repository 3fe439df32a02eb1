-- ===== src/Upload/Tests.antt =====
-- An upload at concrete inputs.
use telecollection.Prelude.{pos, ◌≡◌, refl, codes, some, [], ok}
use telecollection.Examples.{accepting, docs, text, upload_bytes, send_media}
use telecollection.Store.{File, zero_time}
use telecollection.Upload.{file, parse_sent_document}

abbrev memo : File
memo = record {
  id = pos 0;
  folder_id = pos 0;
  message_id = pos 44;
  name = codes "memo";
  size = pos 3;
  mime = text.mime_type;
  chunk_manifest_id = pos 0;
  created_at = zero_time;
}

file_memo :
    file upload_bytes send_media
      (some accepting)
      docs
      (codes "memo")
      (some (codes "abc"))
      (pos 3)
      []
      0
    ≡ (ok memo, 2)
unfolding file parse_sent_document
file_memo = refl
