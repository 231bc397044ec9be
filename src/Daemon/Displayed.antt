-- ===== src/Daemon/Displayed.antt =====
-- The part of the voice state that the shared memory shows, and that the events and the sync of
-- src/daemon/voice_runtime.h report its changes.
use sigaw.Prelude.{
  ℕ, ◌-◌, ◌≡◌, refl, sym, ◌∙◌, ap, Bool, true, false, not, ◌&&◌, ◌||◌, [], inl, inr, arith, ltb,
  if◌then◌else◌, Bytes, lit, str_eq, is_empty, if_rule,
}
use sigaw.Json.Interface.{JsonLib}
use sigaw.Json.Utils.{string_or}
use sigaw.Voice.State.{
  VoiceState, no_voice, VoiceSyncConfig, active, VoiceRuntimeState, VoiceUpdateResult,
}
use sigaw.Voice.Ipc.{IpcLib, IpcLaws}
use sigaw.Voice.Sync.Defs.{
  drop_subscription, schedule_channel_sync, adopt, finish_sync, resync, sync_now,
  sync_pending_channel,
}
use sigaw.Voice.Sync.Invariant.{IsTracked}
use sigaw.Voice.Events.Defs.{leave_channel, on_channel_select, process_voice_event}
use sigaw.Voice.Events.Invariant.{on_user_event-UsersOnly}
use sigaw.Protocol.{SigawState}
use sigaw.Shm.Writer.{
  ShmWriter, mapped, begin_write, end_write, clear_channel, write_voice, update_shm,
}

-- Without a channel nothing is shown.
abbrev pub displayed : VoiceState → VoiceState
displayed voice = if is_empty voice.channel_id then no_voice else voice

write_voice-empty :
    (voice : VoiceState) (s : SigawState)
    → is_empty voice.channel_id ≡ true
    → write_voice voice s ≡ clear_channel s
unfolding write_voice
write_voice-empty voice s e = rw e refl

write_voice-displayed : (voice : VoiceState) → write_voice voice ≡ write_voice (displayed voice)
unfolding write_voice
write_voice-displayed voice =
    if_rule (λ v. write_voice voice ≡ write_voice v) (is_empty voice.channel_id) no_voice voice
      (λ empty. λ i s. write_voice-empty voice s empty i) (λ _. refl)

-- The shared memory holds what `update_shm` writes for what is displayed.
abbrev pub Published : VoiceState → ShmWriter → Type 0
Published voice shm = (old : ShmWriter) × (shm ≡ update_shm (displayed voice) old)

pub update_shm-Published :
    (voice : VoiceState) (old : ShmWriter) → Published voice (update_shm voice old)
unfolding update_shm
update_shm-Published voice old =
    (old, ap (λ f. end_write (mapped f (begin_write old))) (write_voice-displayed voice))

-- A change that is not reported is none of what is displayed.
abbrev pub Reported : VoiceState → VoiceState → Bool → Type 0
Reported before after changed = changed ≡ false → displayed after ≡ displayed before

module _ (I : IpcLib) where
  drop_subscription-voice :
      (state : VoiceRuntimeState) (ipc : I.Ipc)
      → (drop_subscription I (state, ipc)).0.voice ≡ state.voice
  unfolding drop_subscription
  drop_subscription-voice state ipc = ground arith

  finish_sync-Reported :
      (state : VoiceRuntimeState) (ipc : I.Ipc) (selected : VoiceState) (now : ℕ)
      (config : VoiceSyncConfig)
      → let (s, r) = finish_sync I state ipc selected now config in
        Reported state.voice s.voice r.state_changed
  unfolding finish_sync adopt
  finish_sync-Reported state ipc selected now config =
      let P = λ (o : VoiceRuntimeState × VoiceUpdateResult).
        Reported state.voice o.0.voice o.1.state_changed in
      if_rule P
        (str_eq selected.channel_id state.pending_sync.channel_id && not (is_empty selected.users))
        _ _ (λ _ e. absurd (ground (arith, e)))
        (λ _.
          if_rule P (ltb 0 (state.pending_sync.attempts_remaining - 1)) _ _ (λ _ _. refl)
            (λ _ e. absurd (ground (arith, e))))

  module _ (J : JsonLib) where
    on_channel_select-Reported :
        (state : VoiceRuntimeState) (ipc : I.Ipc) (d : J.Json) (now : ℕ) (config : VoiceSyncConfig)
        → let (s, i, r) = on_channel_select J I (state, ipc) d now config in
          Reported state.voice s.voice r.state_changed
    unfolding on_channel_select leave_channel
    on_channel_select-Reported state ipc d now config =
        let P = λ (o : VoiceRuntimeState × I.Ipc × VoiceUpdateResult).
          Reported state.voice o.0.voice o.2.state_changed in
        let c = string_or J d (lit "channel_id") [] in
        if_rule P (J.is_null d || is_empty c) _ _
          (λ _ e.
            let empty : is_empty state.voice.channel_id ≡ true = ground (arith, e) in rw empty refl)
          (λ _.
            if_rule P
              (str_eq c state.subscribed_channel_id
                && is_empty state.pending_sync.channel_id
                && str_eq state.voice.channel_id c
                && not (is_empty state.voice.users))
              _ _ (λ _ _. refl) (λ _ e. absurd (ground (arith, e))))

    pub process_voice_event-Reported :
        (event : J.Json) (state : VoiceRuntimeState) (ipc : I.Ipc) (now : ℕ)
        (config : VoiceSyncConfig)
        → let (s, i, r) = process_voice_event J I event (state, ipc) now config in
          Reported state.voice s.voice r.state_changed
    unfolding process_voice_event
    process_voice_event-Reported event state ipc now config =
        let P = λ (o : VoiceRuntimeState × I.Ipc × VoiceUpdateResult).
          Reported state.voice o.0.voice o.2.state_changed in
        if_rule P (not (str_eq (string_or J event (lit "cmd") []) (lit "DISPATCH"))) _ _
          (λ _ _. refl)
          (λ _.
            if_rule P (str_eq (string_or J event (lit "evt") []) (lit "VOICE_CHANNEL_SELECT")) _ _
              (λ _. on_channel_select-Reported state ipc (J.at event (lit "data")) now config)
              (λ _ e.
                ap (λ (s : VoiceRuntimeState). displayed s.voice)
                  ((on_user_event-UsersOnly J state (string_or J event (lit "evt") [])
                      event).reported
                    e)))

  nothing_displayed : (voice : VoiceState) → voice.channel_id ≡ [] → displayed voice ≡ no_voice
  nothing_displayed voice e = rw e refl

  resync-Reported :
      (state : VoiceRuntimeState) (ipc : I.Ipc) (now : ℕ) (config : VoiceSyncConfig)
      → let (s, i, r) = resync I (state, ipc) now config in
        Reported state.voice s.voice r.state_changed
  unfolding resync
  resync-Reported state ipc now config =
      let (selected, ipc') = I.get_selected_voice_channel ipc in
      if_rule
        (λ (o : VoiceRuntimeState × I.Ipc × VoiceUpdateResult).
          Reported state.voice o.0.voice o.2.state_changed)
        (is_empty selected.channel_id) _ _ (λ _ _. refl)
        (λ _. finish_sync-Reported state ipc' selected now config)

  schedule_channel_sync-silent :
      (state : VoiceRuntimeState) (ipc : I.Ipc) (c : Bytes) (now : ℕ) (config : VoiceSyncConfig)
      (announce : Bool)
      → state.voice.channel_id ≡ []
      → displayed (schedule_channel_sync I (state, ipc) c now config announce).0.voice
        ≡ displayed state.voice
  unfolding schedule_channel_sync
  schedule_channel_sync-silent state ipc c now config announce silent =
      if_rule (λ (o : VoiceRuntimeState × I.Ipc). displayed o.0.voice ≡ displayed state.voice)
        (is_empty c) _ _ (λ _. refl) (λ _. sym (nothing_displayed state.voice silent))

  sync_now-Reported :
      (state : VoiceRuntimeState) (ipc : I.Ipc) (now : ℕ) (config : VoiceSyncConfig)
      → state.voice.channel_id ≡ []
      → let (s, i, r) = sync_now I (state, ipc) now config in
        Reported state.voice s.voice r.state_changed
  unfolding sync_now
  sync_now-Reported state ipc now config silent =
      let P = λ (o : VoiceRuntimeState × I.Ipc × VoiceUpdateResult).
        Reported state.voice o.0.voice o.2.state_changed in
      let (selected, ipc') = I.get_selected_voice_channel ipc in
      let (s, i) =
        schedule_channel_sync I (state, ipc') selected.channel_id now config
          state.pending_sync.announce_join in
      if_rule P (is_empty selected.channel_id) _ _
        (λ _ _. ap displayed (drop_subscription-voice state ipc'))
        (λ _.
          if_rule P (not (str_eq selected.channel_id state.pending_sync.channel_id)) _ _
            (λ _ e.
              resync-Reported s i now config e
              ∙ schedule_channel_sync-silent state ipc' selected.channel_id now config
                  state.pending_sync.announce_join silent)
            (λ _. finish_sync-Reported state ipc' selected now config))

  module _ (L : IpcLaws I) where
    -- A sync that is due is one without a channel.
    due-silent :
        (state : VoiceRuntimeState) (ipc : I.Ipc)
        → IsTracked I L state ipc
        → active state.pending_sync ≡ true
        → state.voice.channel_id ≡ []
    due-silent state ipc t on = elim t.sync_target [
      | inl none ↦ absurd (ground (arith, on, none))
      | inr (same, silent) ↦ silent
    ]

    pub sync_pending_channel-Reported :
        (state : VoiceRuntimeState) (ipc : I.Ipc) (now : ℕ) (config : VoiceSyncConfig)
        → IsTracked I L state ipc
        → let (s, i, r) = sync_pending_channel I (state, ipc) now config in
          Reported state.voice s.voice r.state_changed
    unfolding sync_pending_channel
    sync_pending_channel-Reported state ipc now config t =
        if_rule
          (λ (o : VoiceRuntimeState × I.Ipc × VoiceUpdateResult).
            Reported state.voice o.0.voice o.2.state_changed)
          (not (active state.pending_sync) || ltb now state.pending_sync.next_attempt) _ _
          (λ _ _. refl)
          (λ due.
            sync_now-Reported state ipc now config (due-silent state ipc t (ground (arith, due))))
