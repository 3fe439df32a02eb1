-- ===== src/Telegram.antt =====
-- The part of gotd's client that the program calls, a parameter of every model that calls it: the
-- shapes of its replies as far as the code looks into them, and the calls as functions on a state `T`
-- that stands for the Telegram server.
use telecollection.Prelude.{ℤ, Bytes, Bool, Option, List, Action}

-- *tg.Channel
pub record Channel : Type 0 where
  pub id : ℤ
  pub access_hash : Option ℤ
  pub title : Bytes
  pub broadcast : Bool

-- tg.ChatClass
pub data Chat : Type 0 where
  channel : Channel → Chat
  other_chat : Chat

-- *tg.Document
pub record Document : Type 0 where
  pub size : ℤ
  pub mime_type : Bytes

-- tg.DocumentClass, as Media holds it
pub data DocumentClass : Type 0 where
  document : Document → DocumentClass
  document_empty : DocumentClass

-- tg.MessageMediaClass: the document of a messageMediaDocument may be absent.
pub data Media : Type 0 where
  media_document : Option DocumentClass → Media
  other_media : Media

-- *tg.Message
pub record Message : Type 0 where
  pub id : ℤ
  pub media : Option Media

-- tg.MessageClass: a message, or an empty or service one
pub data MessageClass : Type 0 where
  message : Message → MessageClass
  other_message : MessageClass

-- tg.UpdateClass: an update that has GetMessage, or one that has not
pub data Update : Type 0 where
  with_message : MessageClass → Update
  other_update : Update

-- tg.UpdatesClass: nil, a variant with no lists, or one with GetUpdates and GetChats
pub data Updates : Type 0 where
  nil_updates : Updates
  no_lists : Updates
  updates : List Update → List Chat → Updates

-- tg.MessagesMessagesClass
pub data Messages : Type 0 where
  not_modified : Messages
  modified : List MessageClass → Messages

-- *tg.InputChannel and *tg.InputPeerChannel
pub record InputChannel : Type 0 where
  pub channel_id : ℤ
  pub access_hash : ℤ

-- A dialog of the account with what its peer resolves to among the entities.
pub data Dialog : Type 0 where
  dialog_folder : Dialog
  other_peer : Dialog
  channel_peer : Option Channel → Dialog

-- *tg.Client; ctx is honoured by the calls, which then return its error.
pub record Api (T : Type 0) : Type 0 where
  pub get_dialogs : Action T (List Dialog)
  pub channels_create_channel : (broadcast : Bool) → Bytes → Action T Updates
  pub messages_set_history_ttl : InputChannel → (period : ℤ) → Action T (Unit {0})
  pub channels_edit_title : InputChannel → Bytes → Action T (Unit {0})
  pub channels_delete_channel : InputChannel → Action T (Unit {0})
  pub messages_edit_message : InputChannel → (id : ℤ) → Bytes → Action T (Unit {0})
  pub channels_delete_messages : InputChannel → List ℤ → Action T (Unit {0})
  pub messages_forward_messages :
      (from_peer to_peer : InputChannel) (ids random_ids : List ℤ) → Action T Updates
  pub channels_get_messages : InputChannel → List ℤ → Action T Messages
