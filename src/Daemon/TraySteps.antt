-- ===== src/Daemon/TraySteps.antt =====
-- What the entries of the tray's menu do to the runtime state in src/daemon/main.cpp.
use sigaw.Prelude.{
  subst, Bool, not, List, [], ◌∷◌, Option, none, some, if◌then◌else◌, if_rule, Option_rule,
}
use sigaw.Voice.State.{VoiceState, VoiceRuntimeState}
use sigaw.Voice.Ipc.{IpcLib, IpcLaws, ChatLaws}
use sigaw.Chat.Follow.{clear_chat_state, refresh_chat_state}
use sigaw.Config.Types.{FloatLib}
use sigaw.Config.Store.{save}
use sigaw.Tray.Plan.{Action, PlannedAction, plan_action, daemon_chat_requested}
use sigaw.Daemon.TrayLoop.{
  TrayRun, open_config_in_editor, plan_clear, plan_refresh, carry_out, tray_action, tray_loop,
  process_tray_actions,
}
use sigaw.Daemon.Chat.{clear_chat_state-ChatStep, refresh_chat_state-ChatStep}
use sigaw.Daemon.Steps.{Sound, Sound-chat}

module _ (I : IpcLib) (L : IpcLaws I) (C : ChatLaws I L) (FL : FloatLib) where
  -- A run of the tray's loop on a connection.
  abbrev pub FollowSound : VoiceState → Option (VoiceRuntimeState × I.Ipc) → Bool → Type 0
  FollowSound shown none changed = ⊥
  FollowSound shown (some (runtime, ipc)) changed = Sound I L shown (runtime, ipc, changed)

  abbrev pub TraySound : VoiceState → TrayRun I FL → Type 0
  TraySound shown st = FollowSound shown st.follow st.result.state_changed

  plan_clear-TraySound :
      (shown : VoiceState) (planned : PlannedAction FL) (st : TrayRun I FL)
      → TraySound shown st
      → TraySound shown (plan_clear I FL planned st)
  unfolding plan_clear
  plan_clear-TraySound shown planned st h =
      let changed = st.result.state_changed in
      Option_rule (TraySound shown) st.follow _ _ (λ _. h)
        (λ (s, i) e.
          let (t, j, had_chat) = clear_chat_state I (s, i) in
          if_rule (TraySound shown) planned.clear_chat_state _ _
            (λ _.
              Sound-chat I L shown s t i j changed had_chat
                (subst (λ o. FollowSound shown o changed) e h)
                (clear_chat_state-ChatStep I L C s i))
            (λ _. h))

  plan_refresh-TraySound :
      (shown : VoiceState) (planned : PlannedAction FL) (profile : Bool) (st : TrayRun I FL)
      → TraySound shown st
      → TraySound shown (plan_refresh I FL planned profile st)
  unfolding plan_refresh
  plan_refresh-TraySound shown planned profile st h =
      let changed = st.result.state_changed in
      let want_chat = daemon_chat_requested st.config profile in
      Option_rule (TraySound shown) st.follow _ _ (λ _. h)
        (λ (s, i) e.
          let (t, j, more) = refresh_chat_state I (s, i) want_chat in
          if_rule (TraySound shown) planned.refresh_chat_state _ _
            (λ _.
              Sound-chat I L shown s t i j changed more
                (subst (λ o. FollowSound shown o changed) e h)
                (refresh_chat_state-ChatStep I L C s i want_chat))
            (λ _. h))

  carry_out-TraySound :
      (shown : VoiceState) (planned : PlannedAction FL) (profile : Bool) (st : TrayRun I FL)
      → TraySound shown st
      → TraySound shown (carry_out I FL planned profile st).0
  unfolding carry_out
  carry_out-TraySound shown planned profile st h =
      let opened =
        if planned.open_config_requested
        then record st { disk = open_config_in_editor FL st.config st.disk }
        else st in
      plan_refresh-TraySound shown planned profile (plan_clear I FL planned opened) (
        plan_clear-TraySound shown planned opened
          (if_rule (TraySound shown) planned.open_config_requested _ _ (λ _. h) (λ _. h)))

  tray_action-TraySound :
      (shown : VoiceState) (action : Action) (profile scope : Bool) (st : TrayRun I FL)
      → TraySound shown st
      → TraySound shown (tray_action I FL action profile scope st).0
  unfolding tray_action
  tray_action-TraySound shown action profile scope st h =
      let P = λ (o : TrayRun I FL × Bool). TraySound shown o.0 in
      let planned = plan_action action st.config profile scope in
      Option_rule P planned.updated_config _ _ (λ _. carry_out-TraySound shown planned profile st h)
        (λ next _.
          let (saved, disk) = save FL next st.disk in
          if_rule P (not saved) _ _ (λ _. h)
            (λ _.
              carry_out-TraySound shown planned profile (record st { config = next; disk = disk })
                h))

  tray_loop-TraySound :
      (shown : VoiceState) (actions : List Action) (profile scope : Bool) (st : TrayRun I FL)
      → TraySound shown st
      → TraySound shown (tray_loop I FL actions profile scope st).0
  unfolding tray_loop
  tray_loop-TraySound shown [] profile scope st h = h
  tray_loop-TraySound shown (action ∷ actions) profile scope st h =
      let next = tray_action-TraySound shown action profile scope st h in
      if_rule (λ (o : TrayRun I FL × List Action). TraySound shown o.0)
        (tray_action I FL action profile scope st).1 _ _ (λ _. next)
        (λ _.
          tray_loop-TraySound shown actions profile scope
            (tray_action I FL action profile scope st).0 next)

  pub process_tray_actions-TraySound :
      (shown : VoiceState) (actions : Option (List Action)) (profile scope : Bool)
      (st : TrayRun I FL)
      → TraySound shown st
      → TraySound shown (process_tray_actions I FL actions profile scope st).0
  unfolding process_tray_actions
  process_tray_actions-TraySound shown none profile scope st h = h
  process_tray_actions-TraySound shown (some actions) profile scope st h =
      tray_loop-TraySound shown actions profile scope st h
