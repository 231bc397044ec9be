-- ===== src/Daemon/Published.antt =====
-- What a round of the event loop of src/daemon/main.cpp keeps.
use sigaw.Prelude.{
  ◌≡◌, refl, sym, ◌∙◌, ap, subst, Bool, true, false, not, List, Option, none, some, arith,
  if◌then◌else◌, lit, if_rule, Option_rule,
}
use sigaw.Json.Interface.{JsonLib}
use sigaw.Voice.State.{VoiceState, VoiceRuntimeState}
use sigaw.Voice.Ipc.{IpcLib, IpcLaws, ChatLaws}
use sigaw.Voice.Sync.Invariant.{IsTracked}
use sigaw.Chat.Follow.{refresh_chat_state}
use sigaw.Shm.Writer.{update_shm}
use sigaw.Socket.Defs.{Socket}
use sigaw.Config.Types.{FloatLib}
use sigaw.Config.Store.{load}
use sigaw.Tray.Plan.{daemon_chat_requested}
use sigaw.Control.Server
use sigaw.Daemon.TrayLoop.{no_result, TrayRun, process_tray_actions}
use sigaw.Daemon.Loop.{
  Polled, Inputs, Next, profile_requests, daemon_requires_reconnect, goes_on, stops, reconnects,
  Daemon, drain, settle, publish, on_config_change, on_control, then_control, after_tray,
  after_events, round,
}
use sigaw.Daemon.Displayed.{Published, update_shm-Published}
use sigaw.Daemon.Chat.{IsTracked-rest, refresh_chat_state-ChatStep}
use sigaw.Daemon.TraySteps.{FollowSound, TraySound, process_tray_actions-TraySound}
use sigaw.Daemon.Steps.{Sound, Drained, drain-Drained, settle-Sound}

module _ (J : JsonLib) (I : IpcLib) (FL : FloatLib) (poll_event : I.Ipc → Polled J.Json × I.Ipc)
    (L : IpcLaws I) (C : ChatLaws I L) where
  abbrev State : Type 0
  State = Daemon J I FL poll_event

  -- The state is tracked; and where the loop goes on, the memory shows the voice state, if that is asked for.
  abbrev Holds : Bool → Next × State → Type 0
  Holds quiet (next, e) =
      IsTracked I L e.runtime e.ipc
      × (next ≡ goes_on → quiet ≡ true → Published e.runtime.voice e.shm)

  publish-IsTracked :
      (r : VoiceRuntimeState) (i : I.Ipc) (changed : Bool) (d : State)
      → IsTracked I L r i
      → let e = publish J I FL poll_event (r, i, changed) d in IsTracked I L e.runtime e.ipc
  unfolding publish
  publish-IsTracked r i changed d h = h

  publish-Published :
      (shown : VoiceState) (r : VoiceRuntimeState) (i : I.Ipc) (changed : Bool) (d : State)
      → Published shown d.shm
      → Sound I L shown (r, i, changed)
      → let e = publish J I FL poll_event (r, i, changed) d in Published e.runtime.voice e.shm
  unfolding publish
  publish-Published shown r i changed d (old, e) h =
      if_rule (Published r.voice) changed _ _ (λ _. update_shm-Published r.voice d.shm)
        (λ same. (old, e ∙ ap (λ v. update_shm v old) (sym (h.reported same))))

  on_control-Holds :
      (quiet : Bool) (clients : Option (List Socket)) (d : State)
      → IsTracked I L d.runtime d.ipc
      → (quiet ≡ true → Published d.runtime.voice d.shm)
      → Holds quiet (on_control J I FL poll_event clients d)
  unfolding on_control
  on_control-Holds quiet clients d tracked published =
      let (action, served, (config, disk)) = Server.process_pending FL clients (d.config, d.disk) in
      let e = record d { config = config; disk = disk } in
      elim action
        as (λ a. Holds quiet (elim a as (λ _. Next × State) [
          | Server.quit ↦ (stops, e)
          | Server.reload ↦
              (reconnects false, record e { profile_chat_requested = profile_requests FL disk })
          | Server.refresh ↦ (goes_on, e)
          | Server.nothing ↦ (goes_on, e)
        ])) [
          | Server.quit ↦ (tracked, λ k q. published q)
          | Server.reload ↦ (tracked, λ k q. published q)
          | Server.refresh ↦ (tracked, λ k q. published q)
          | Server.nothing ↦ (tracked, λ k q. published q)
        ]

  on_config_change-IsTracked :
      (d : State)
      → IsTracked I L d.runtime d.ipc
      → IsTracked I L
          (on_config_change J I FL poll_event d).1.runtime
          (on_config_change J I FL poll_event d).1.ipc
  unfolding on_config_change
  on_config_change-IsTracked d tracked =
      let updated = load FL d.disk in
      let profile = profile_requests FL d.disk in
      let want_chat = daemon_chat_requested updated profile in
      let (r, i, changed) = refresh_chat_state I (d.runtime, d.ipc) want_chat in
      let step = refresh_chat_state-ChatStep I L C d.runtime d.ipc want_chat in
      if_rule (λ (o : Next × State). IsTracked I L o.1.runtime o.1.ipc)
        (daemon_requires_reconnect d.config updated
          (daemon_chat_requested d.config d.profile_chat_requested) want_chat
          (I.has_scope (lit "messages.read") d.ipc))
        _ _ (λ _. tracked)
        (λ _. IsTracked-rest I L d.runtime r d.ipc i step.rest step.subscriptions tracked)

  then_control-Holds :
      (quiet : Bool) (clients : Option (List Socket)) (o : Next × State)
      → IsTracked I L o.1.runtime o.1.ipc
      → (quiet ≡ true → Published o.1.runtime.voice o.1.shm)
      → Holds quiet (then_control J I FL poll_event clients o)
  unfolding then_control
  then_control-Holds quiet clients (goes_on, d) tracked published =
      on_control-Holds quiet clients d tracked published
  then_control-Holds quiet clients (_, d) tracked published = (tracked, λ k q. published q)

  configured-Holds :
      (inputs : Inputs) (e : State)
      → IsTracked I L e.runtime e.ipc
      → Published e.runtime.voice e.shm
      → Holds (not inputs.config_changed) (
          then_control J I FL poll_event inputs.clients
            (if inputs.config_changed then on_config_change J I FL poll_event e else (goes_on, e)))
  configured-Holds inputs e tracked published =
      let quiet = not inputs.config_changed in
      if_rule (λ (o : Next × State). Holds quiet (then_control J I FL poll_event inputs.clients o))
        inputs.config_changed _ _
        (λ changed.
          then_control-Holds quiet inputs.clients (on_config_change J I FL poll_event e)
            (on_config_change-IsTracked e tracked) (λ q. absurd (ground (arith, changed, q))))
        (λ _. then_control-Holds quiet inputs.clients (goes_on, e) tracked (λ _. published))

  after_events-Holds :
      (inputs : Inputs) (d : State) (shown : VoiceState)
      (read : Bool × (VoiceRuntimeState × I.Ipc × Bool))
      → Published shown d.shm
      → Sound I L shown read.1
      → Holds (not inputs.config_changed) (after_events J I FL poll_event inputs d read)
  unfolding after_events
  after_events-Holds inputs d shown (true, (r, i, changed)) published h =
      (h.tracked, λ k. absurd (ground (arith, k)))
  after_events-Holds inputs d shown (false, (r, i, changed)) published h =
      let want_chat = daemon_chat_requested d.config d.profile_chat_requested in
      let (s, j, more) = settle J I FL poll_event inputs want_chat (r, i, changed) in
      let settled = settle-Sound I L J FL poll_event shown inputs want_chat r i changed C h in
      configured-Holds inputs (publish J I FL poll_event (s, j, more) d)
        (publish-IsTracked s j more d settled.tracked)
        (publish-Published shown s j more d published settled)

  after_tray-Sound :
      (shown : VoiceState) (d : State) (st : TrayRun I FL)
      → TraySound I L C FL shown st
      → let e = after_tray J I FL poll_event st d in
        Sound I L shown (e.runtime, e.ipc, st.result.state_changed)
  after_tray-Sound shown d st h =
      let changed = st.result.state_changed in
      Option_rule (λ (o : VoiceRuntimeState × I.Ipc). Sound I L shown (o.0, o.1, changed)) st.follow
        (d.runtime, d.ipc) (λ pair. pair)
        (λ e. absurd (subst (λ o. FollowSound I L C FL shown o changed) e h))
        (λ (s, i) e. subst (λ o. FollowSound I L C FL shown o changed) e h)

  -- What a round leaves, if it ends.
  abbrev pub Kept : Inputs → Option (Next × State) → Type 0
  Kept inputs none = Unit
  Kept inputs (some (next, e)) =
      IsTracked I L e.runtime e.ipc
      × (next ≡ goes_on → not inputs.config_changed ≡ true → Published e.runtime.voice e.shm)

  -- A round keeps the state tracked, on a connection with a count of subscriptions that polling leaves as it is;
  -- and where the loop goes on and the configuration did not change, the shared memory holds what `update_shm`
  -- writes for the voice state, if it did so before.
  pub round-Kept :
      (inputs : Inputs) (d : State)
      → ((k : I.Ipc) → L.subscriptions (poll_event k).1 ≡ L.subscriptions k)
      → IsTracked I L d.runtime d.ipc
      → Published d.runtime.voice d.shm
      → Kept inputs (round J I FL poll_event inputs d)
  unfolding round
  round-Kept inputs d polls tracked published =
      let start : TrayRun I FL = record {
        config = d.config;
        disk = d.disk;
        follow = some (d.runtime, d.ipc);
        result = no_result;
      } in
      let shown = d.runtime.voice in
      let scope = I.has_scope (lit "messages.read") d.ipc in
      let (st, left) = process_tray_actions I FL inputs.tray d.profile_chat_requested scope start in
      let e = after_tray J I FL poll_event st d in
      let tray = after_tray-Sound shown d st (
        process_tray_actions-TraySound I L C FL shown inputs.tray d.profile_chat_requested scope
          start (record { tracked = tracked; reported = λ _. refl })) in
      let read =
        drain J I FL poll_event inputs.event_times (e.runtime, e.ipc, st.result.state_changed) in
      let drained =
        drain-Drained I L J FL poll_event shown inputs.event_times e.runtime e.ipc
          st.result.state_changed polls tray in
      if_rule (Kept inputs) st.result.quit_requested _ _
        (λ _. (tray.tracked, λ k. absurd (ground (arith, k))))
        (λ _.
          if_rule (Kept inputs) st.result.reconnect_requested _ _
            (λ _. (tray.tracked, λ k. absurd (ground (arith, k))))
            (λ _.
              Option_rule (Kept inputs) read _ _ (λ _. tt)
                (λ now e'.
                  after_events-Holds inputs e shown now published
                    (subst (Drained I L J FL poll_event shown) e' drained))))
