-- ===== src/Daemon/TrayLoop.antt =====
-- `open_config_in_editor` and `process_tray_actions` of src/daemon/main.cpp. The menu entries that were
-- chosen are the tray library's; so is the editor that is started.
use sigaw.Prelude.{Bool, false, not, ◌&&◌, ◌||◌, List, [], ◌∷◌, Option, none, some, if◌then◌else◌}
use sigaw.Voice.State.{VoiceRuntimeState}
use sigaw.Voice.Ipc.{IpcLib}
use sigaw.Chat.Follow.{clear_chat_state, refresh_chat_state}
use sigaw.Config.Types.{FloatLib, Config}
use sigaw.Config.Store.{Disk, save}
use sigaw.Tray.Plan.{Action, PlannedAction, plan_action, daemon_chat_requested}

pub record TrayLoopResult : Type 0 where
  pub state_changed : Bool
  pub reconnect_requested : Bool
  pub reauthenticate_requested : Bool
  pub quit_requested : Bool

abbrev pub no_result : TrayLoopResult
no_result = record {
  state_changed = false;
  reconnect_requested = false;
  reauthenticate_requested = false;
  quit_requested = false;
}

-- A configuration file that is missing is written first. Whether the editor starts changes nothing.
unfoldable pub open_config_in_editor : (FL : FloatLib) → Config FL → Disk → Disk
open_config_in_editor FL config disk = elim disk.text as (λ _. Disk) [
  | some text ↦ disk
  | none ↦ (save FL config disk).1
]

module _ (I : IpcLib) (FL : FloatLib) where
  open I use {Ipc}

  -- What the function is given and works on. The pointers to the runtime state and to the connection are
  -- both null, `none`, or neither.
  pub record TrayRun : Type 0 where
    pub config : Config FL
    pub disk : Disk
    pub follow : Option (VoiceRuntimeState × Ipc)
    pub result : TrayLoopResult

  abbrev pub followed : VoiceRuntimeState × Ipc × Bool → TrayRun → TrayRun
  followed (runtime, ipc, changed) st = record st {
    follow = some (runtime, ipc);
    result = record st.result { state_changed = st.result.state_changed || changed };
  }

  unfoldable pub plan_clear : PlannedAction FL → TrayRun → TrayRun
  plan_clear planned st = elim st.follow as (λ _. TrayRun) [
    | none ↦ st
    | some (runtime, ipc) ↦
        if planned.clear_chat_state then followed (clear_chat_state I (runtime, ipc)) st else st
  ]

  unfoldable pub plan_refresh : PlannedAction FL → Bool → TrayRun → TrayRun
  plan_refresh planned profile_chat_requested st = elim st.follow as (λ _. TrayRun) [
    | none ↦ st
    | some (runtime, ipc) ↦
        if planned.refresh_chat_state
        then followed
            (refresh_chat_state I (runtime, ipc)
              (daemon_chat_requested st.config profile_chat_requested))
            st
        else st
  ]

  -- The part of the loop behind the save of a changed configuration. The Boolean is `break`.
  unfoldable pub carry_out : PlannedAction FL → Bool → TrayRun → TrayRun × Bool
  unfolding plan_clear plan_refresh
  carry_out planned profile_chat_requested st =
      let opened =
        if planned.open_config_requested
        then record st { disk = open_config_in_editor FL st.config st.disk }
        else st in
      let s = plan_refresh planned profile_chat_requested (plan_clear planned opened) in
      let reconnect = planned.reload_requested || planned.reconnect_requested in
      (
        record s {
          result = record s.result {
            reauthenticate_requested =
                s.result.reauthenticate_requested || planned.reauthenticate_requested;
            reconnect_requested = s.result.reconnect_requested || reconnect;
            quit_requested = s.result.quit_requested || (not reconnect && planned.stop_daemon);
          };
        },
        reconnect || planned.stop_daemon,
      )

  -- One entry of the menu; a configuration that cannot be saved ends it.
  unfoldable pub tray_action : Action → Bool → Bool → TrayRun → TrayRun × Bool
  unfolding carry_out
  tray_action action profile_chat_requested have_messages_read_scope st =
      let planned = plan_action action st.config profile_chat_requested have_messages_read_scope in
      elim planned.updated_config as (λ _. TrayRun × Bool) [
        | none ↦ carry_out planned profile_chat_requested st
        | some next ↦
            let (saved, disk) = save FL next st.disk in
            if not saved
            then (record st { disk = disk }, false)
            else carry_out planned profile_chat_requested (record st { config = next; disk = disk })
      ]

  -- The loop over the entries that were chosen, and those that it leaves for the next time.
  unfoldable pub tray_loop : List Action → Bool → Bool → TrayRun → TrayRun × List Action
  unfolding tray_action
  tray_loop [] profile scope st = (st, [])
  tray_loop (action ∷ actions) profile scope st =
      let (next, stop) = tray_action action profile scope st in
      let rest = tray_loop actions profile scope next in if stop then (next, actions) else rest

  -- Without a tray, `none`, nothing is done.
  unfoldable pub process_tray_actions :
      Option (List Action) → Bool → Bool → TrayRun → TrayRun × List Action
  unfolding tray_loop
  process_tray_actions none profile scope st = (st, [])
  process_tray_actions (some actions) profile scope st = tray_loop actions profile scope st
