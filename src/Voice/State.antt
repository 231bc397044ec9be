-- ===== src/Voice/State.antt =====
-- The structs of src/daemon/discord_ipc.h and voice_runtime.h. Time points and durations are
-- nanoseconds; the configured interval and number of attempts are not negative.
use sigaw.Prelude.{ℕ, Bool, false, not, ◌&&◌, List, [], ltb, ◌==◌, Bytes, is_empty}

pub record VoiceUser : Type 0 where
  pub id : ℕ
  pub username : Bytes
  pub avatar : Bytes
  pub speaking : Bool
  pub self_mute : Bool
  pub self_deaf : Bool
  pub server_mute : Bool
  pub server_deaf : Bool

-- `VoiceUser user; user.id = id;`.
abbrev pub new_user : ℕ → VoiceUser
new_user i = record {
  id = i;
  username = [];
  avatar = [];
  speaking = false;
  self_mute = false;
  self_deaf = false;
  server_mute = false;
  server_deaf = false;
}

pub record VoiceChatMessage : Type 0 where
  pub id : ℕ
  pub author_id : ℕ
  pub observed_at_ms : ℕ
  pub author_name : Bytes
  pub content : Bytes

pub record VoiceState : Type 0 where
  pub channel_id : Bytes
  pub channel_name : Bytes
  pub guild_id : Bytes
  pub users : List VoiceUser
  pub chat_messages : List VoiceChatMessage

-- `VoiceState{}`.
abbrev pub no_voice : VoiceState
no_voice = record {
  channel_id = [];
  channel_name = [];
  guild_id = [];
  users = [];
  chat_messages = [];
}

pub record DiscordUserIdentity : Type 0 where
  pub id : ℕ
  pub username : Bytes
  pub avatar : Bytes

abbrev pub identity_empty : DiscordUserIdentity → Bool
identity_empty u = u.id == 0 && is_empty u.username && is_empty u.avatar

pub record VoiceSyncConfig : Type 0 where
  pub retry_interval_ms : ℕ
  pub max_attempts : ℕ

abbrev pub default_sync_config : VoiceSyncConfig
default_sync_config = record { retry_interval_ms = 100; max_attempts = 5 }

pub record PendingVoiceSync : Type 0 where
  pub channel_id : Bytes
  pub attempts_remaining : ℕ
  pub next_attempt : ℕ
  pub announce_join : Bool

abbrev pub active : PendingVoiceSync → Bool
active p = not (is_empty p.channel_id) && ltb 0 p.attempts_remaining

-- What `clear()` leaves.
abbrev pub no_sync : PendingVoiceSync
no_sync = record {
  channel_id = [];
  attempts_remaining = 0;
  next_attempt = 0;
  announce_join = false;
}

pub record VoiceRuntimeState : Type 0 where
  pub voice : VoiceState
  pub subscribed_channel_id : Bytes
  pub active_chat_channel_id : Bytes
  pub subscribed_chat_channel_id : Bytes
  pub live_chat_events : Bool
  pub pending_sync : PendingVoiceSync

abbrev pub initial_runtime : VoiceRuntimeState
initial_runtime = record {
  voice = no_voice;
  subscribed_channel_id = [];
  active_chat_channel_id = [];
  subscribed_chat_channel_id = [];
  live_chat_events = false;
  pending_sync = no_sync;
}

pub record VoiceUpdateResult : Type 0 where
  pub state_changed : Bool
  pub left_channel : Bool
  pub joined_channel : Bool
  pub user_joined : Bytes
  pub user_left : Bytes

abbrev pub no_update : VoiceUpdateResult
no_update = record {
  state_changed = false;
  left_channel = false;
  joined_channel = false;
  user_joined = [];
  user_left = [];
}
