-- ===== src/Voice/Balanced.antt =====
-- The calls that src/daemon/voice_runtime.h makes on a connection, whatever comes of them.
use sigaw.Prelude.{ℕ, ◌≤◌, ◌≡◌, sym, List, [], ◌⊎◌, arith, Bytes, lit, Distinct}
use sigaw.Json.Interface.{JsonLib}
use sigaw.Json.Utils.{string_or}
use sigaw.Voice.State.{VoiceRuntimeState, VoiceSyncConfig, VoiceUpdateResult}
use sigaw.Voice.Ipc.{IpcLib}
use sigaw.Voice.Ledger.{
  ledger, ledger_laws, process_voice_event-forget, sync_pending_channel-forget,
}
use sigaw.Voice.Sync.Defs.{schedule_channel_sync, sync_pending_channel, drop_subscription}
use sigaw.Voice.Sync.Invariant.{owned, IsTracked, sync_pending_channel-IsTracked}
use sigaw.Voice.Events.Defs.{leave_channel, on_channel_select, process_voice_event}
use sigaw.Voice.Events.Users.{user_id}
use sigaw.Voice.Events.Invariant.{on_user_event-UsersOnly, process_voice_event-IsTracked}

-- The recorded channel is the only one for which the code called `subscribe_channel` and not
-- `unsubscribe_channel` since; a pending sync and the published voice state are of that channel, if of any,
-- and never both at once.
pub record Balanced (state : VoiceRuntimeState) (asked : List Bytes) : Type 0 where
  pub one_subscription : asked ≡ owned state.subscribed_channel_id
  pub sync_target :
      (state.pending_sync.channel_id ≡ [])
      ⊎ ((state.pending_sync.channel_id ≡ state.subscribed_channel_id)
          × (state.voice.channel_id ≡ []))
  pub voice_target :
      (state.voice.channel_id ≡ []) ⊎ (state.voice.channel_id ≡ state.subscribed_channel_id)

pub IsTracked-Balanced :
    (I : IpcLib) (s : VoiceRuntimeState) (asked : List Bytes) (i : I.Ipc)
    → IsTracked (ledger I) (ledger_laws I) s (asked, i)
    → Balanced s asked
IsTracked-Balanced I s asked i h = record {
  one_subscription = h.one_subscription;
  sync_target = h.sync_target;
  voice_target = h.voice_target;
}

pub Balanced-IsTracked :
    (I : IpcLib) (s : VoiceRuntimeState) (asked : List Bytes) (i : I.Ipc)
    → Balanced s asked
    → IsTracked (ledger I) (ledger_laws I) s (asked, i)
Balanced-IsTracked I s asked i h = record {
  one_subscription = h.one_subscription;
  sync_target = h.sync_target;
  voice_target = h.voice_target;
}

module _ (J : JsonLib) (I : IpcLib) where
  -- The users are distinct.
  abbrev HasDistinct : VoiceRuntimeState × I.Ipc × VoiceUpdateResult → Type 0
  HasDistinct out = Distinct user_id out.0.voice.users

  on_channel_select-HasDistinct :
      (s : VoiceRuntimeState) (i : I.Ipc) (d : J.Json) (now : ℕ) (config : VoiceSyncConfig)
      → Distinct user_id s.voice.users
      → HasDistinct (on_channel_select J I (s, i) d now config)
  unfolding on_channel_select leave_channel schedule_channel_sync drop_subscription
  on_channel_select-HasDistinct s i d now config h = ground (arith, h)

  process_voice_event-HasDistinct :
      (event : J.Json) (s : VoiceRuntimeState) (i : I.Ipc) (now : ℕ) (config : VoiceSyncConfig)
      → Distinct user_id s.voice.users
      → HasDistinct (process_voice_event J I event (s, i) now config)
  unfolding process_voice_event
  process_voice_event-HasDistinct event s i now config h =
      let evt = string_or J event (lit "evt") [] in
      ground (
        arith,
        h,
        on_channel_select-HasDistinct s i (J.at event (lit "data")) now config h,
        (on_user_event-UsersOnly J s evt event).distinct h,
      )

-- Every Discord event, whatever comes of the calls that the code makes on the connection: the channels for
-- which it called `subscribe_channel` and not `unsubscribe_channel` since are exactly the recorded one, or
-- none, if that was so before; so is the target of a pending sync and of the voice state, never both at
-- once; no user is listed twice, if none was before; and the ledger of the calls that shows this changes
-- neither the state, the connection nor the report.
pub process_voice_event-Balanced :
    (J : JsonLib) (I : IpcLib) (event : J.Json) (s : VoiceRuntimeState) (asked : List Bytes)
    (i : I.Ipc) (now : ℕ) (config : VoiceSyncConfig)
    → Balanced s asked
    → Distinct user_id s.voice.users
    → let (t, (more, j), r) = process_voice_event J (ledger I) event (s, (asked, i)) now config in
      Balanced t more
      × Distinct user_id t.voice.users
      × (process_voice_event J I event (s, i) now config ≡ (t, j, r))
process_voice_event-Balanced J I event s asked i now config h d =
    let (t, (more, j), r) = process_voice_event J (ledger I) event (s, (asked, i)) now config in
    (
      IsTracked-Balanced I t more j (
          process_voice_event-IsTracked J (ledger I) (ledger_laws I) event s (asked, i) now config
            (Balanced-IsTracked I s asked i h)),
      process_voice_event-HasDistinct J (ledger I) event s (asked, i) now config d,
      sym (process_voice_event-forget I J event s asked i now config),
    )

-- Under a configuration of at least two attempts, and whatever Discord answers and comes of the calls that
-- `sync_pending_channel` makes: the channels for which it called `subscribe_channel` and not
-- `unsubscribe_channel` since are exactly the recorded one, or none, if that was so before; so is the
-- target of a pending sync and of the voice state, never both at once; and the ledger of the calls that
-- shows this changes neither the state, the connection nor the report.
pub sync_pending_channel-Balanced :
    (I : IpcLib) (s : VoiceRuntimeState) (asked : List Bytes) (i : I.Ipc) (now : ℕ)
    (config : VoiceSyncConfig)
    → Balanced s asked
    → 2 ≤ config.max_attempts
    → let (t, (more, j), r) = sync_pending_channel (ledger I) (s, (asked, i)) now config in
      Balanced t more × (sync_pending_channel I (s, i) now config ≡ (t, j, r))
sync_pending_channel-Balanced I s asked i now config h many =
    let (t, (more, j), r) = sync_pending_channel (ledger I) (s, (asked, i)) now config in
    (
      IsTracked-Balanced I t more j (
          sync_pending_channel-IsTracked (ledger I) (ledger_laws I) s (asked, i) now config
            (Balanced-IsTracked I s asked i h) many),
      sym (sync_pending_channel-forget I s asked i now config),
    )
