-- ===== src/Protocol.antt =====
-- src/common/protocol.h: the image of the voice state in shared memory. A `char` array is the list
-- of its bytes; padding fields are left out.
use sigaw.Prelude.{ℕ, Bytes, List}

abbrev pub sigaw_magic : ℕ
sigaw_magic = 0x53494741

abbrev pub sigaw_overlay_magic : ℕ
sigaw_overlay_magic = 0x5349474f

abbrev pub sigaw_version : ℕ
sigaw_version = 4

abbrev pub sigaw_max_users : ℕ
sigaw_max_users = 64

abbrev pub sigaw_max_chat_messages : ℕ
sigaw_max_chat_messages = 8

abbrev pub sigaw_max_chat_author : ℕ
sigaw_max_chat_author = 48

abbrev pub sigaw_max_chat_content : ℕ
sigaw_max_chat_content = 160

pub record SigawHeader : Type 0 where
  pub magic : ℕ
  pub version : ℕ
  pub sequence : ℕ
  pub channel_name_len : ℕ
  pub channel_name : Bytes

pub record SigawUser : Type 0 where
  pub user_id : ℕ
  pub username : Bytes
  pub avatar_hash : Bytes
  pub speaking : ℕ
  pub self_mute : ℕ
  pub self_deaf : ℕ
  pub server_mute : ℕ
  pub server_deaf : ℕ
  pub suppress : ℕ

pub record SigawChatMessage : Type 0 where
  pub message_id : ℕ
  pub author_id : ℕ
  pub observed_at_ms : ℕ
  pub author_name_len : ℕ
  pub content_len : ℕ
  pub author_name : Bytes
  pub content : Bytes

pub record SigawState : Type 0 where
  pub header : SigawHeader
  pub user_count : ℕ
  pub chat_count : ℕ
  pub users : List SigawUser
  pub chat_messages : List SigawChatMessage

-- `SigawCtlCommand`.
abbrev pub sigaw_ctl_status : ℕ
sigaw_ctl_status = 1

abbrev pub sigaw_ctl_toggle : ℕ
sigaw_ctl_toggle = 2

abbrev pub sigaw_ctl_reload : ℕ
sigaw_ctl_reload = 3

abbrev pub sigaw_ctl_quit : ℕ
sigaw_ctl_quit = 4

-- `message` has 256 bytes.
pub record SigawCtlResponse : Type 0 where
  pub command : ℕ
  pub status : ℕ
  pub message : Bytes
