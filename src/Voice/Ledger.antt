-- ===== src/Voice/Ledger.antt =====
-- A connection that also keeps a ledger of the calls that src/daemon/voice_runtime.h and src/daemon/main.cpp
-- make on it, whatever comes of them: Discord may refuse a subscription, or the socket be closed.
use sigaw.Prelude.{ℕ, ◌≡◌, refl, Bool, not, List, [], ◌∷◌, true, lit, arith, Bytes, str_eq, keep_if}
use sigaw.Json.Interface.{JsonLib}
use sigaw.Json.Utils.{string_or}
use sigaw.Voice.State.{VoiceState, VoiceRuntimeState, VoiceSyncConfig, VoiceUpdateResult}
use sigaw.Voice.Ipc.{IpcLib, IpcLaws, ChatLaws}
use sigaw.Voice.Sync.Defs.{
  adopt, drop_subscription, move_subscription, schedule_channel_sync, finish_sync, resync, sync_now,
  sync_pending_channel,
}
use sigaw.Voice.Events.Defs.{leave_channel, on_channel_select, process_voice_event}

-- The first component holds the channels for which `subscribe_channel` was called, and `unsubscribe_channel`
-- was not called since. Every call goes to the connection as well, and its result is the connection's.
abbrev pub ledger : IpcLib → IpcLib
ledger I = record {
  Ipc = List Bytes × I.Ipc;
  subscribe_voice = λ (asked, i). (asked, I.subscribe_voice i);
  subscribe_channel = λ c (asked, i). (c ∷ asked, I.subscribe_channel c i);
  unsubscribe_channel =
      λ c (asked, i). (keep_if (λ d. not (str_eq d c)) asked, I.unsubscribe_channel c i);
  get_selected_voice_channel =
      λ (asked, i). let (voice, j) = I.get_selected_voice_channel i in (voice, (asked, j));
  local_user = λ (asked, i). I.local_user i;
  has_scope = λ scope (asked, i). I.has_scope scope i;
  subscribe_channel_messages =
      λ c (asked, i). let (ok, j) = I.subscribe_channel_messages c i in (ok, (asked, j));
  unsubscribe_channel_messages = λ c (asked, i). (asked, I.unsubscribe_channel_messages c i);
}

abbrev pub ledger_laws : (I : IpcLib) → IpcLaws (ledger I)
ledger_laws I = record {
  subscriptions = λ (asked, i). asked;
  subscribed = λ c (asked, i). refl;
  unsubscribed = λ c (asked, i). refl;
  queried = λ (asked, i). refl;
}

abbrev pub ledger_chat_laws : (I : IpcLib) → ChatLaws (ledger I) (ledger_laws I)
ledger_chat_laws I = record {
  selection = λ (asked, i). refl;
  followed = λ c (asked, i). refl;
  unfollowed = λ c (asked, i). refl;
}

module _ (I : IpcLib) where
  -- What a call leaves, without the ledger.
  abbrev forget : VoiceRuntimeState × (List Bytes × I.Ipc) → VoiceRuntimeState × I.Ipc
  forget (s, (asked, i)) = (s, i)

  abbrev pub forget_update :
      VoiceRuntimeState × (List Bytes × I.Ipc) × VoiceUpdateResult
      → VoiceRuntimeState × I.Ipc × VoiceUpdateResult
  forget_update (s, (asked, i), r) = (s, i, r)

  drop_subscription-forget :
      (s : VoiceRuntimeState) (asked : List Bytes) (i : I.Ipc)
      → forget (drop_subscription (ledger I) (s, (asked, i))) ≡ drop_subscription I (s, i)
  unfolding drop_subscription
  drop_subscription-forget s asked i = ground arith

  move_subscription-forget :
      (s : VoiceRuntimeState) (asked : List Bytes) (i : I.Ipc) (c : Bytes)
      → forget (move_subscription (ledger I) (s, (asked, i)) c) ≡ move_subscription I (s, i) c
  unfolding move_subscription drop_subscription
  move_subscription-forget s asked i c = ground arith

  schedule_channel_sync-forget :
      (s : VoiceRuntimeState) (asked : List Bytes) (i : I.Ipc) (c : Bytes) (now : ℕ)
      (config : VoiceSyncConfig) (announce : Bool)
      → forget (schedule_channel_sync (ledger I) (s, (asked, i)) c now config announce)
        ≡ schedule_channel_sync I (s, i) c now config announce
  unfolding schedule_channel_sync
  schedule_channel_sync-forget s asked i c now config announce =
      ground (arith, move_subscription-forget s asked i c)

  finish_sync-forget :
      (s : VoiceRuntimeState) (asked : List Bytes) (i : I.Ipc) (v : VoiceState) (now : ℕ)
      (config : VoiceSyncConfig)
      → finish_sync (ledger I) s (asked, i) v now config ≡ finish_sync I s i v now config
  unfolding finish_sync adopt
  finish_sync-forget s asked i v now config = refl

  resync-forget :
      (s : VoiceRuntimeState) (asked : List Bytes) (i : I.Ipc) (now : ℕ) (config : VoiceSyncConfig)
      → forget_update (resync (ledger I) (s, (asked, i)) now config) ≡ resync I (s, i) now config
  unfolding resync
  resync-forget s asked i now config = ground (
    arith,
    finish_sync-forget s asked (I.get_selected_voice_channel i).1 (I.get_selected_voice_channel i).0
        now config,
  )

  sync_now-forget :
      (s : VoiceRuntimeState) (asked : List Bytes) (i : I.Ipc) (now : ℕ) (config : VoiceSyncConfig)
      → forget_update (sync_now (ledger I) (s, (asked, i)) now config)
        ≡ sync_now I (s, i) now config
  unfolding sync_now
  sync_now-forget s asked i now config =
      let (v, j) = I.get_selected_voice_channel i in
      let announce = s.pending_sync.announce_join in
      let (t, (more, k)) =
        schedule_channel_sync (ledger I) (s, (asked, j)) v.channel_id now config announce in
      ground (
        arith,
        drop_subscription-forget s asked j,
        schedule_channel_sync-forget s asked j v.channel_id now config announce,
        resync-forget t more k now config,
        finish_sync-forget s asked j v now config,
      )

  pub sync_pending_channel-forget :
      (s : VoiceRuntimeState) (asked : List Bytes) (i : I.Ipc) (now : ℕ) (config : VoiceSyncConfig)
      → forget_update (sync_pending_channel (ledger I) (s, (asked, i)) now config)
        ≡ sync_pending_channel I (s, i) now config
  unfolding sync_pending_channel
  sync_pending_channel-forget s asked i now config =
      ground (arith, sync_now-forget s asked i now config)

  module _ (J : JsonLib) where
    leave_channel-forget :
        (s : VoiceRuntimeState) (asked : List Bytes) (i : I.Ipc)
        → forget_update (leave_channel J (ledger I) (s, (asked, i))) ≡ leave_channel J I (s, i)
    unfolding leave_channel
    leave_channel-forget s asked i = ground (arith, drop_subscription-forget s asked i)

    on_channel_select-forget :
        (s : VoiceRuntimeState) (asked : List Bytes) (i : I.Ipc) (d : J.Json) (now : ℕ)
        (config : VoiceSyncConfig)
        → forget_update (on_channel_select J (ledger I) (s, (asked, i)) d now config)
          ≡ on_channel_select J I (s, i) d now config
    unfolding on_channel_select
    on_channel_select-forget s asked i d now config =
        let c = string_or J d (lit "channel_id") [] in
        ground (
          arith,
          leave_channel-forget s asked i,
          schedule_channel_sync-forget s asked i c now config true,
        )

    pub process_voice_event-forget :
        (event : J.Json) (s : VoiceRuntimeState) (asked : List Bytes) (i : I.Ipc) (now : ℕ)
        (config : VoiceSyncConfig)
        → forget_update (process_voice_event J (ledger I) event (s, (asked, i)) now config)
          ≡ process_voice_event J I event (s, i) now config
    unfolding process_voice_event
    process_voice_event-forget event s asked i now config =
        ground (arith, on_channel_select-forget s asked i (J.at event (lit "data")) now config)
