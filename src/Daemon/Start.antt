-- ===== src/Daemon/Start.antt =====
-- What stands in front of the event loop of src/daemon/main.cpp, and behind it.
use sigaw.Prelude.{
  ℕ, ◌≡◌, refl, ◌∙◌, ap, false, not, ◌&&◌, [], ◌∷◌, inl, inr, arith, is_empty, is_empty→nil,
  if_rule,
}
use sigaw.Json.Interface.{JsonLib}
use sigaw.Voice.State.{VoiceRuntimeState, default_sync_config}
use sigaw.Voice.Ipc.{IpcLib, IpcLaws, ChatLaws}
use sigaw.Voice.Sync.Defs.{schedule_channel_sync}
use sigaw.Voice.Sync.Invariant.{
  IsTracked, schedule_channel_sync-IsTracked, sync_pending_channel-IsTracked,
}
use sigaw.Chat.Follow.{refresh_chat_state}
use sigaw.Config.Types.{FloatLib}
use sigaw.Tray.Plan.{daemon_chat_requested}
use sigaw.Daemon.Loop.{Polled, Daemon, publish, adopt_selected, sync_selected, start}
use sigaw.Daemon.Displayed.{Published, update_shm-Published}
use sigaw.Daemon.Chat.{IsTracked-rest, refresh_chat_state-ChatStep}

module _ (J : JsonLib) (I : IpcLib) (FL : FloatLib) (poll_event : I.Ipc → Polled J.Json × I.Ipc)
    (L : IpcLaws I) (C : ChatLaws I L) where
  adopt_selected-IsTracked :
      (ipc : I.Ipc)
      → L.subscriptions ipc ≡ []
      → let (r, i) = adopt_selected J I FL poll_event ipc in IsTracked I L r i
  unfolding adopt_selected
  adopt_selected-IsTracked ipc fresh =
      let (voice, i) = I.get_selected_voice_channel ipc in
      let none : L.subscriptions i ≡ [] = L.queried ipc ∙ fresh in
      if_rule (λ (o : VoiceRuntimeState × I.Ipc). IsTracked I L o.0 o.1) (is_empty voice.channel_id)
        _ _
        (λ empty. record {
          one_subscription = none;
          sync_target = inl refl;
          voice_target = inl (is_empty→nil voice.channel_id empty);
        })
        (λ joined. record {
          one_subscription =
              L.subscribed voice.channel_id i ∙ rw joined (ap (◌∷◌ voice.channel_id) none);
          sync_target = inl refl;
          voice_target = inr refl;
        })

  sync_selected-IsTracked :
      (t u : ℕ) (r : VoiceRuntimeState) (i : I.Ipc)
      → IsTracked I L r i
      → let (s, j) = sync_selected J I FL poll_event t u (r, i) in IsTracked I L s j
  unfolding sync_selected
  sync_selected-IsTracked t u r i h =
      let c = r.voice.channel_id in
      let (s, j) = schedule_channel_sync I (r, i) c t default_sync_config false in
      if_rule (λ (o : VoiceRuntimeState × I.Ipc). IsTracked I L o.0 o.1)
        (not (is_empty c) && is_empty r.voice.users) _ _
        (λ _.
          sync_pending_channel-IsTracked I L s j u default_sync_config
            (schedule_channel_sync-IsTracked I L r i c t default_sync_config false h) (omega arith))
        (λ _. h)

  -- With the count of subscriptions at none, the event loop begins with a state that is tracked, and the
  -- shared memory holds what `update_shm` writes for its voice state.
  pub start-Published :
      (t u : ℕ) (d : Daemon J I FL poll_event)
      → L.subscriptions d.ipc ≡ []
      → let e = start J I FL poll_event t u d in
        IsTracked I L e.runtime e.ipc × Published e.runtime.voice e.shm
  unfolding start publish
  start-Published t u d fresh =
      let ipc = I.subscribe_voice d.ipc in
      let (r, i) = adopt_selected J I FL poll_event ipc in
      let (s, j) = sync_selected J I FL poll_event t u (r, i) in
      let want_chat = daemon_chat_requested d.config d.profile_chat_requested in
      let (v, k, changed) = refresh_chat_state I (s, j) want_chat in
      let step = refresh_chat_state-ChatStep I L C s j want_chat in
      let selected = adopt_selected-IsTracked ipc (C.selection d.ipc ∙ fresh) in
      (
        IsTracked-rest I L s v j k step.rest step.subscriptions
            (sync_selected-IsTracked t u r i selected),
        update_shm-Published v.voice d.shm,
      )
