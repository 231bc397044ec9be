-- ===== src/Tray/Plan.antt =====
-- `plan_action` of src/daemon/tray_actions.cpp.
use sigaw.Prelude.{
  ◌≡◌, refl, ◌∙◌, Bool, true, false, not, ◌&&◌, ◌||◌, Option, none, some, arith, if◌then◌else◌,
}
use sigaw.Config.Types.{FloatLib, Config, requests_voice_channel_chat}

pub data Action : Type 0 where
  toggle_overlay toggle_voice_messages toggle_compact_mode : Action
  open_config reload_config reauthenticate stop_daemon : Action

pub record PlannedAction (FL : FloatLib) : Type 0 where
  pub updated_config : Option (Config FL)
  pub overlay_dirty : Bool
  pub clear_chat_state : Bool
  pub refresh_chat_state : Bool
  pub reconnect_requested : Bool
  pub reauthenticate_requested : Bool
  pub reload_requested : Bool
  pub open_config_requested : Bool
  pub stop_daemon : Bool

-- `PlannedAction planned;`.
abbrev pub nothing_planned : {FL : FloatLib} → PlannedAction FL
nothing_planned = record {
  updated_config = none;
  overlay_dirty = false;
  clear_chat_state = false;
  refresh_chat_state = false;
  reconnect_requested = false;
  reauthenticate_requested = false;
  reload_requested = false;
  open_config_requested = false;
  stop_daemon = false;
}

not-not : (b : Bool) → not (not b) ≡ b
not-not true = refl
not-not false = refl

module _ {FL : FloatLib} where
  -- Of tray_actions.cpp and of main.cpp.
  unfoldable pub daemon_chat_requested : Config FL → Bool → Bool
  daemon_chat_requested config profile_chat_requested =
      requests_voice_channel_chat config || profile_chat_requested

  -- `updated_config = next; overlay_dirty = true`.
  abbrev pub dirty_with : Config FL → PlannedAction FL
  dirty_with next = record nothing_planned { updated_config = some next; overlay_dirty = true }

  unfoldable pub plan_voice_messages : Config FL → Bool → Bool → PlannedAction FL
  unfolding daemon_chat_requested
  plan_voice_messages current profile_chat_requested have_messages_read_scope =
      let next = record current { show_voice_channel_chat = not current.show_voice_channel_chat } in
      let planned = dirty_with next in
      let current_requested = daemon_chat_requested current profile_chat_requested in
      if not (daemon_chat_requested next profile_chat_requested)
      then record planned { clear_chat_state = true }
      else if not current_requested && have_messages_read_scope
      then record planned { refresh_chat_state = true }
      else if not current_requested
      then record planned { reconnect_requested = true }
      else planned

  unfoldable pub plan_action : Action → Config FL → Bool → Bool → PlannedAction FL
  unfolding plan_voice_messages
  plan_action toggle_overlay current profile scope =
      dirty_with (record current { visible = not current.visible })
  plan_action toggle_voice_messages current profile scope =
      plan_voice_messages current profile scope
  plan_action toggle_compact_mode current profile scope =
      dirty_with (record current { compact = not current.compact })
  plan_action open_config current profile scope = record nothing_planned {
    open_config_requested = true;
  }
  plan_action reload_config current profile scope = record nothing_planned {
    reload_requested = true;
  }
  plan_action reauthenticate current profile scope = record nothing_planned {
    reconnect_requested = true;
    reauthenticate_requested = true;
  }
  plan_action Action.stop_daemon current profile scope = record nothing_planned {
    stop_daemon = true;
  }

  -- The configuration that a plan stores, or the one there was.
  abbrev pub planned_config : Config FL → PlannedAction FL → Config FL
  planned_config current p = elim p.updated_config [ none ↦ current | some c ↦ c ]

  plan_voice_messages-config :
      (c : Config FL) (profile scope : Bool)
      → planned_config c (plan_voice_messages c profile scope)
        ≡ record c { show_voice_channel_chat = not c.show_voice_channel_chat }
  unfolding plan_voice_messages
  plan_voice_messages-config c profile scope = ground arith

  -- Choosing any entry twice leaves the configuration as it was, whatever the profiles ask for and
  -- whatever Discord has granted.
  plan_action_twice :
      (a : Action) (c : Config FL) (profile scope profile' scope' : Bool)
      → let once = planned_config c (plan_action a c profile scope) in
        planned_config once (plan_action a once profile' scope') ≡ c
  unfolding plan_action
  plan_action_twice toggle_overlay c profile scope profile' scope' =
      λ i. record c { visible = not-not c.visible i }
  plan_action_twice toggle_voice_messages c profile scope profile' scope' =
      rw (plan_voice_messages-config c profile scope) (
        plan_voice_messages-config
          (record c { show_voice_channel_chat = not c.show_voice_channel_chat }) profile' scope'
        ∙ λ i. record c { show_voice_channel_chat = not-not c.show_voice_channel_chat i })
  plan_action_twice toggle_compact_mode c profile scope profile' scope' =
      λ i. record c { compact = not-not c.compact i }
  plan_action_twice _ c profile scope profile' scope' = refl

  -- After the entry for voice messages, with `was` and `is` for chat being asked for by the
  -- configuration or a profile before and after: the chat state is cleared exactly if chat is no
  -- longer asked for; it is fetched exactly if chat is newly asked for and Discord has granted the
  -- scope; and the daemon reconnects exactly if chat is newly asked for without that scope.
  pub plan_action-chat :
      (c : Config FL) (profile scope : Bool)
      → let p = plan_action toggle_voice_messages c profile scope in
        let was = daemon_chat_requested c profile in
        let is = daemon_chat_requested (planned_config c p) profile in
        (p.clear_chat_state ≡ not is)
        × (p.refresh_chat_state ≡ (is && not was && scope))
        × (p.reconnect_requested ≡ (is && not was && not scope))
  unfolding plan_action
  plan_action-chat c profile scope = ground arith
