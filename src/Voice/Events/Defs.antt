-- ===== src/Voice/Events/Defs.antt =====
-- `update_voice_identity`, `apply_voice_flags` and `process_voice_event` of
-- src/daemon/voice_runtime.h, one function for each kind of event.
use sigaw.Prelude.{
  ℕ, Bool, true, not, ◌&&◌, ◌||◌, List, [], ◌∷◌, ◌++◌, Option, none, some, ◌==◌, if◌then◌else◌,
  Bytes, lit, str_eq, is_empty, find_if,
}
use mathlib.Core.Bool.{xor}
use sigaw.Json.Interface.{JsonLib, contains}
use sigaw.Json.Utils.{object_or_null, string_or, u64_or, bool_or, voice_display_name}
use sigaw.Voice.State.{
  VoiceUser, new_user, no_voice, VoiceSyncConfig, no_sync, VoiceRuntimeState, VoiceUpdateResult,
  no_update,
}
use sigaw.Voice.Ipc.{IpcLib}
use sigaw.Voice.Sync.Defs.{drop_subscription, schedule_channel_sync}

-- A write through the iterator of `find_if`: to the first element that passes.
unfoldable pub update_first {ℓ} : {A : Type ℓ} → (A → Bool) → (A → A) → List A → List A
update_first p f [] = []
update_first p f (x ∷ xs) = if p x then f x ∷ xs else x ∷ update_first p f xs

-- `erase(it)`.
unfoldable pub erase_first {ℓ} : {A : Type ℓ} → (A → Bool) → List A → List A
erase_first p [] = []
erase_first p (x ∷ xs) = if p x then xs else x ∷ erase_first p xs

abbrev pub has_id : ℕ → VoiceUser → Bool
has_id i u = u.id == i

-- The users of the channel are replaced.
abbrev pub with_users : VoiceRuntimeState → List VoiceUser → VoiceRuntimeState
with_users state us = record state { voice = record state.voice { users = us } }

module _ (J : JsonLib) where
  open J use {Json}

  unfoldable pub update_voice_identity : VoiceUser → Json → Option Json → VoiceUser
  update_voice_identity u voice_state user =
      let old = if is_empty u.username then lit "???" else u.username in
      let named = record u { username = voice_display_name J voice_state user old } in
      elim user [
        | none ↦ named
        | some j ↦
            if contains J j (lit "avatar")
            then record named { avatar = string_or J j (lit "avatar") [] }
            else named
      ]

  unfoldable pub voice_flags_source : Json → Json
  voice_flags_source voice_state = elim (object_or_null J voice_state (lit "voice_state")) [
    | none ↦ voice_state
    | some nested ↦ nested
  ]

  unfoldable pub apply_voice_flags : VoiceUser → Json → VoiceUser
  apply_voice_flags u voice_state =
      let flags = voice_flags_source voice_state in
      record u {
        self_mute = bool_or J flags (lit "self_mute") u.self_mute;
        self_deaf = bool_or J flags (lit "self_deaf") u.self_deaf;
        server_mute = bool_or J flags (lit "mute") u.server_mute;
        server_deaf = bool_or J flags (lit "deaf") u.server_deaf;
      }

  -- What an event's data makes of a user.
  unfoldable pub refreshed : VoiceUser → Json → Json → VoiceUser
  refreshed u event_data user =
      apply_voice_flags (update_voice_identity u event_data (some user)) event_data

  -- A user that is not in the list yet.
  unfoldable pub join : VoiceRuntimeState → ℕ → Json → Json → VoiceRuntimeState × VoiceUpdateResult
  join state uid event_data user =
      let u = refreshed (new_user uid) event_data user in
      (
        with_users state (state.voice.users ++ u ∷ []),
        record no_update { user_joined = u.username; state_changed = true },
      )

  unfoldable pub on_state_create : VoiceRuntimeState → Json → VoiceRuntimeState × VoiceUpdateResult
  on_state_create state event_data = elim (object_or_null J event_data (lit "user")) [
    | none ↦ (state, no_update)
    | some user ↦
        let uid = u64_or J user (lit "id") 0 in
        if uid == 0 then (state, no_update) else elim (find_if (has_id uid) state.voice.users) [
          | some _ ↦ (state, no_update)
          | none ↦ join state uid event_data user
        ]
  ]

  unfoldable pub on_state_update : VoiceRuntimeState → Json → VoiceRuntimeState × VoiceUpdateResult
  on_state_update state event_data = elim (object_or_null J event_data (lit "user")) [
    | none ↦ (state, no_update)
    | some user ↦
        let uid = u64_or J user (lit "id") 0 in
        if uid == 0 then (state, no_update) else elim (find_if (has_id uid) state.voice.users) [
          | none ↦ join state uid event_data user
          | some _ ↦ (
            with_users state
                (update_first (has_id uid) (λ u. refreshed u event_data user) state.voice.users),
            record no_update { state_changed = true },
          )
        ]
  ]

  unfoldable pub on_state_delete : VoiceRuntimeState → Json → VoiceRuntimeState × VoiceUpdateResult
  on_state_delete state event_data = elim (object_or_null J event_data (lit "user")) [
    | none ↦ (state, no_update)
    | some user ↦
        let uid = u64_or J user (lit "id") 0 in
        elim (find_if (has_id uid) state.voice.users) [
          | none ↦ (state, no_update)
          | some gone ↦ (
            with_users state (erase_first (has_id uid) state.voice.users),
            record no_update { user_left = gone.username; state_changed = true },
          )
        ]
  ]

  -- `SPEAKING_START` and `SPEAKING_STOP`: the flag is `evt == "SPEAKING_START"`.
  unfoldable pub on_speaking :
      VoiceRuntimeState → Json → Bool → VoiceRuntimeState × VoiceUpdateResult
  on_speaking state event_data now_speaking =
      let uid = u64_or J event_data (lit "user_id") 0 in
      if uid == 0 then (state, no_update) else elim (find_if (has_id uid) state.voice.users) [
        | none ↦ (state, no_update)
        | some u ↦
            if xor u.speaking now_speaking
            then (
              with_users state (
                  update_first (has_id uid) (λ v. record v { speaking = now_speaking })
                    state.voice.users),
              record no_update { state_changed = true },
            )
            else (state, no_update)
      ]

  -- The events of a user, behind the test that a channel is selected.
  unfoldable pub on_user_event :
      VoiceRuntimeState → Bytes → Json → VoiceRuntimeState × VoiceUpdateResult
  on_user_event state evt event =
      let event_data = J.at event (lit "data") in
      if is_empty state.voice.channel_id
      then (state, no_update)
      else if str_eq evt (lit "VOICE_STATE_CREATE")
      then on_state_create state event_data
      else if str_eq evt (lit "VOICE_STATE_UPDATE")
      then on_state_update state event_data
      else if str_eq evt (lit "VOICE_STATE_DELETE")
      then on_state_delete state event_data
      else if str_eq evt (lit "SPEAKING_START") || str_eq evt (lit "SPEAKING_STOP")
      then on_speaking state event_data (str_eq evt (lit "SPEAKING_START"))
      else (state, no_update)

  module _ (I : IpcLib) where
    open I use {Ipc}

    -- `VOICE_CHANNEL_SELECT` with no channel.
    unfoldable pub leave_channel :
        VoiceRuntimeState × Ipc → VoiceRuntimeState × Ipc × VoiceUpdateResult
    leave_channel (state, ipc) =
        let (s, i) = drop_subscription I (state, ipc) in
        let had_voice = not (is_empty state.voice.channel_id) in
        (
          record s { voice = no_voice; pending_sync = no_sync },
          i,
          record no_update { state_changed = had_voice; left_channel = had_voice },
        )

    unfoldable pub on_channel_select :
        VoiceRuntimeState × Ipc
        → Json
        → ℕ
        → VoiceSyncConfig
        → VoiceRuntimeState × Ipc × VoiceUpdateResult
    on_channel_select (state, ipc) event_data now config =
        let new_channel = string_or J event_data (lit "channel_id") [] in
        if J.is_null event_data || is_empty new_channel
        then leave_channel (state, ipc)
        else if str_eq new_channel state.subscribed_channel_id
            && is_empty state.pending_sync.channel_id
            && str_eq state.voice.channel_id new_channel
            && not (is_empty state.voice.users)
        then (state, ipc, no_update)
        else (let (s, i) = schedule_channel_sync I (state, ipc) new_channel now config true in
            (s, i, record no_update { state_changed = true }))

    unfoldable pub process_voice_event :
        Json
        → VoiceRuntimeState × Ipc
        → ℕ
        → VoiceSyncConfig
        → VoiceRuntimeState × Ipc × VoiceUpdateResult
    process_voice_event event (state, ipc) now config =
        let cmd = string_or J event (lit "cmd") [] in
        let evt = string_or J event (lit "evt") [] in
        if not (str_eq cmd (lit "DISPATCH"))
        then (state, ipc, no_update)
        else if str_eq evt (lit "VOICE_CHANNEL_SELECT")
        then on_channel_select (state, ipc) (J.at event (lit "data")) now config
        else (let (s, r) = on_user_event state evt event in (s, ipc, r))
