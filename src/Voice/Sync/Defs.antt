-- ===== src/Voice/Sync/Defs.antt =====
-- `schedule_channel_sync`, `add_local_user_fallback` and `sync_pending_channel` of
-- src/daemon/voice_runtime.h. A pair holds the runtime state and the connection.
use sigaw.Prelude.{
  ℕ, ◌+◌, ◌-◌, ◌*◌, max, Bool, true, not, ◌&&◌, ◌||◌, [], ◌∷◌, ◌++◌, ltb, if◌then◌else◌, Bytes, lit,
  str_eq, is_empty,
}
use sigaw.Voice.State.{
  VoiceUser, new_user, VoiceState, no_voice, DiscordUserIdentity, identity_empty, VoiceSyncConfig,
  active, no_sync, VoiceRuntimeState, VoiceUpdateResult, no_update,
}
use sigaw.Voice.Ipc.{IpcLib}

-- The user that stands for the account itself.
unfoldable pub self_user : DiscordUserIdentity → VoiceUser
self_user self = record (new_user self.id) {
  username = if is_empty self.username then lit "???" else self.username;
  avatar = self.avatar;
}

unfoldable pub add_local_user_fallback : VoiceState → DiscordUserIdentity → VoiceState
add_local_user_fallback voice self =
    if not (is_empty voice.users)
    then voice
    else if identity_empty self
    then voice
    else record voice { users = voice.users ++ self_user self ∷ [] }

module _ (I : IpcLib) where
  open I use {Ipc}

  -- `if (!subscribed.empty()) { unsubscribe; clear }`.
  unfoldable pub drop_subscription : VoiceRuntimeState × Ipc → VoiceRuntimeState × Ipc
  drop_subscription (state, ipc) =
      if not (is_empty state.subscribed_channel_id)
      then (
        record state { subscribed_channel_id = [] },
        I.unsubscribe_channel state.subscribed_channel_id ipc,
      )
      else (state, ipc)

  -- The first two tests of `schedule_channel_sync`.
  unfoldable pub move_subscription : VoiceRuntimeState × Ipc → Bytes → VoiceRuntimeState × Ipc
  move_subscription (state, ipc) channel_id =
      let (s, i) =
        if not (is_empty state.subscribed_channel_id)
          && not (str_eq state.subscribed_channel_id channel_id)
        then drop_subscription (state, ipc)
        else (state, ipc) in
      if not (str_eq s.subscribed_channel_id channel_id)
      then (record s { subscribed_channel_id = channel_id }, I.subscribe_channel channel_id i)
      else (s, i)

  unfoldable pub schedule_channel_sync :
      VoiceRuntimeState × Ipc → Bytes → ℕ → VoiceSyncConfig → Bool → VoiceRuntimeState × Ipc
  schedule_channel_sync (state, ipc) channel_id now config announce_join =
      let (s, i) = move_subscription (state, ipc) channel_id in
      if is_empty channel_id then (state, ipc) else (
        record s {
          voice = no_voice;
          pending_sync = record {
            channel_id = channel_id;
            attempts_remaining = max 1 config.max_attempts;
            next_attempt = now;
            announce_join = announce_join;
          };
        },
        i,
      )

  -- `voice = selected` with the pending sync cleared: the result of both ways to finish.
  unfoldable pub adopt : VoiceRuntimeState → VoiceState → VoiceRuntimeState × VoiceUpdateResult
  adopt state selected = (
    record state { voice = selected; pending_sync = no_sync },
    record no_update { state_changed = true; joined_channel = state.pending_sync.announce_join },
  )

  -- `sync_pending_channel` from the test of the selected channel's users on.
  unfoldable pub finish_sync :
      VoiceRuntimeState
      → Ipc
      → VoiceState
      → ℕ
      → VoiceSyncConfig
      → VoiceRuntimeState × VoiceUpdateResult
  finish_sync state ipc selected now config =
      let left = state.pending_sync.attempts_remaining - 1 in
      if str_eq selected.channel_id state.pending_sync.channel_id && not (is_empty selected.users)
      then adopt state selected
      else if ltb 0 left
      then (
        record state {
          pending_sync = record state.pending_sync {
            attempts_remaining = left;
            next_attempt = now + config.retry_interval_ms * 1000000;
          };
        },
        no_update,
      )
      else adopt state (add_local_user_fallback selected (I.local_user ipc))

  -- The second query, after the pending channel has changed under the sync.
  unfoldable pub resync :
      VoiceRuntimeState × Ipc → ℕ → VoiceSyncConfig → VoiceRuntimeState × Ipc × VoiceUpdateResult
  resync (state, ipc) now config =
      let (selected, ipc') = I.get_selected_voice_channel ipc in
      let (s, r) = finish_sync state ipc' selected now config in
      if is_empty selected.channel_id then (state, ipc', no_update) else (s, ipc', r)

  -- `sync_pending_channel` behind its first test.
  unfoldable pub sync_now :
      VoiceRuntimeState × Ipc → ℕ → VoiceSyncConfig → VoiceRuntimeState × Ipc × VoiceUpdateResult
  sync_now (state, ipc) now config =
      let (selected, ipc') = I.get_selected_voice_channel ipc in
      if is_empty selected.channel_id
      then (let (s, i) = drop_subscription (state, ipc') in
          (record s { pending_sync = no_sync }, i, no_update))
      else if not (str_eq selected.channel_id state.pending_sync.channel_id)
      then resync
          (schedule_channel_sync (state, ipc') selected.channel_id now config
            state.pending_sync.announce_join)
          now config
      else (let (s, r) = finish_sync state ipc' selected now config in (s, ipc', r))

  unfoldable pub sync_pending_channel :
      VoiceRuntimeState × Ipc → ℕ → VoiceSyncConfig → VoiceRuntimeState × Ipc × VoiceUpdateResult
  sync_pending_channel (state, ipc) now config =
      if not (active state.pending_sync) || ltb now state.pending_sync.next_attempt
      then (state, ipc, no_update)
      else sync_now (state, ipc) now config
