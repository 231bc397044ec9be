-- ===== src/Daemon/Loop.antt =====
-- The event loop of `main` in src/daemon/main.cpp, over a connection that is authenticated. Times are
-- nanoseconds of the steady clock; waiting in `poll` and what is printed leave no trace. The functions that
-- read a message here throw nothing, so that the handler has nothing to do.
use sigaw.Prelude.{
  ℕ, ◌/◌, Bool, true, false, not, ◌&&◌, ◌||◌, List, [], ◌∷◌, Option, none, some, if◌then◌else◌,
  Bytes, lit, str_eq, is_empty,
}
use sigaw.Protocol.{sigaw_max_chat_messages}
use sigaw.Json.Interface.{JsonLib}
use sigaw.Json.Utils.{string_or}
use sigaw.Voice.State.{VoiceRuntimeState, initial_runtime, default_sync_config}
use sigaw.Voice.Ipc.{IpcLib}
use sigaw.Voice.Events.Defs.{process_voice_event}
use sigaw.Voice.Sync.Defs.{schedule_channel_sync, sync_pending_channel}
use sigaw.Chat.Defs.{process_chat_event, prune_expired_messages}
use sigaw.Chat.Follow.{refresh_chat_state}
use sigaw.Shm.Writer.{ShmWriter, update_shm}
use sigaw.Socket.Defs.{Socket}
use sigaw.Config.Types.{FloatLib, Config}
use sigaw.Config.Apply.{any_profile_requests_chat}
use sigaw.Config.File.{parse_file}
use sigaw.Config.Store.{Disk, readable_lines, load}
use sigaw.Tray.Plan.{Action, daemon_chat_requested}
use sigaw.Control.Server
use sigaw.Daemon.TrayLoop.{no_result, TrayRun, process_tray_actions}

unfoldable pub daemon_requires_reconnect :
    {FL : FloatLib} → Config FL → Config FL → Bool → Bool → Bool → Bool
daemon_requires_reconnect current updated current_chat_requested updated_chat_requested
      have_messages_read_scope =
    not (str_eq current.client_id updated.client_id)
    || not (str_eq current.client_secret updated.client_secret)
    || (not current_chat_requested && updated_chat_requested && not have_messages_read_scope)

-- `Config::any_profile_requests_chat()`.
abbrev pub profile_requests : FloatLib → Disk → Bool
profile_requests FL disk = any_profile_requests_chat FL (parse_file (readable_lines disk))

-- What `poll_event(0)` gives: a null or empty value, the value with the key `_closed`, or a message.
pub data Polled (Json : Type 0) : Type 0 where
  nothing_pending closed : Polled Json
  event : Json → Polled Json

-- What happens outside in one round of the loop: the entries chosen in the tray's menu and those left from
-- the round before, if there is a tray, the time at each call of `poll_event`, at the sync and at the pruning, whether the watcher saw a change,
-- and the clients of the control socket.
pub record Inputs : Type 0 where
  pub tray : Option (List Action)
  pub event_times : List ℕ
  pub sync_time : ℕ
  pub prune_time : ℕ
  pub config_changed : Bool
  pub clients : Option (List Socket)

-- How a round ends: with the next one, by a lost connection, by a request to reconnect, or by one to stop.
pub data Next : Type 0 where
  goes_on lost stops : Next
  reconnects : Bool → Next

module _ (J : JsonLib) (I : IpcLib) (FL : FloatLib)
    (poll_event : I.Ipc → Polled J.Json × I.Ipc) where
  open J use {Json}
  open I use {Ipc}

  pub record Daemon : Type 0 where
    pub config : Config FL
    pub disk : Disk
    pub profile_chat_requested : Bool
    pub runtime : VoiceRuntimeState
    pub ipc : Ipc
    pub shm : ShmWriter

  -- The runtime state, the connection, and whether the shown state has changed.
  abbrev pub Progress : Type 0
  Progress = VoiceRuntimeState × Ipc × Bool

  abbrev pub is_chat_event : Bytes → Bool
  is_chat_event evt_name =
      str_eq evt_name (lit "MESSAGE_CREATE")
      || str_eq evt_name (lit "MESSAGE_UPDATE")
      || str_eq evt_name (lit "MESSAGE_DELETE")

  unfoldable pub on_chat_event : Json → ℕ → VoiceRuntimeState → VoiceRuntimeState × Bool
  on_chat_event message now runtime =
      let (voice, changed) =
        process_chat_event J message runtime.voice (now / 1000000) sigaw_max_chat_messages in
      if not (is_empty runtime.voice.channel_id)
        && str_eq runtime.active_chat_channel_id runtime.voice.channel_id
      then (record runtime { voice = voice }, changed)
      else (runtime, false)

  -- A message that was polled.
  unfoldable pub on_event : Json → ℕ → Progress → Progress
  unfolding on_chat_event
  on_event message now (runtime, ipc, changed) =
      let (r, c) = on_chat_event message now runtime in
      let (s, i, update) = process_voice_event J I message (runtime, ipc) now default_sync_config in
      if is_chat_event (string_or J message (lit "evt") [])
      then (r, ipc, changed || c)
      else (s, i, changed || update.state_changed)

  -- The loop over the pending messages: whether the connection is closed, and the progress; `none` is a loop
  -- that goes on after the last of the times.
  unfoldable pub drain : List ℕ → Progress → Option (Bool × Progress)
  unfolding on_event
  drain [] now = none
  drain (t ∷ ts) (runtime, ipc, changed) =
      let (polled, i) = poll_event ipc in
      elim polled as (λ _. Option (Bool × Progress)) [
        | nothing_pending ↦ some (false, (runtime, i, changed))
        | closed ↦ some (true, (runtime, i, changed))
        | event message ↦ drain ts (on_event message t (runtime, i, changed))
      ]

  -- From the sync of the channel to the pruning of the chat.
  unfoldable pub settle : Inputs → Bool → Progress → Progress
  settle inputs want_chat (runtime, ipc, changed) =
      let (r, i, update) =
        sync_pending_channel I (runtime, ipc) inputs.sync_time default_sync_config in
      let (s, k, chat_changed) = refresh_chat_state I (r, i) want_chat in
      let (voice, pruned) = prune_expired_messages s.voice (inputs.prune_time / 1000000) in
      (record s { voice = voice }, k, changed || update.state_changed || chat_changed || pruned)

  -- `if (state_changed) update_shm(...)`.
  unfoldable pub publish : Progress → Daemon → Daemon
  publish (runtime, ipc, changed) d = record d {
    runtime = runtime;
    ipc = ipc;
    shm = if changed then update_shm runtime.voice d.shm else d.shm;
  }

  -- A change of the configuration file.
  unfoldable pub on_config_change : Daemon → Next × Daemon
  on_config_change d =
      let updated = load FL d.disk in
      let updated_profile = profile_requests FL d.disk in
      let reconnect =
        daemon_requires_reconnect d.config updated
          (daemon_chat_requested d.config d.profile_chat_requested)
          (daemon_chat_requested updated updated_profile)
          (I.has_scope (lit "messages.read") d.ipc) in
      let (r, i, changed) =
        refresh_chat_state I (d.runtime, d.ipc) (daemon_chat_requested updated updated_profile) in
      let e = record d { config = updated; profile_chat_requested = updated_profile } in
      if reconnect then (reconnects false, e) else (goes_on, record e { runtime = r; ipc = i })

  -- The control socket.
  unfoldable pub on_control : Option (List Socket) → Daemon → Next × Daemon
  on_control clients d =
      let (action, served, (config, disk)) = Server.process_pending FL clients (d.config, d.disk) in
      let e = record d { config = config; disk = disk } in
      elim action as (λ _. Next × Daemon) [
        | Server.quit ↦ (stops, e)
        | Server.reload ↦
            (reconnects false, record e { profile_chat_requested = profile_requests FL disk })
        | Server.refresh ↦ (goes_on, e)
        | Server.nothing ↦ (goes_on, e)
      ]

  -- The clients are served unless the change of the configuration has ended the loop.
  unfoldable pub then_control : Option (List Socket) → Next × Daemon → Next × Daemon
  unfolding on_control
  then_control clients (goes_on, d) = on_control clients d
  then_control clients (ended, d) = (ended, d)

  -- The rest of a round once the messages are read.
  unfoldable pub after_events : Inputs → Daemon → Bool × Progress → Next × Daemon
  unfolding settle publish on_config_change then_control
  after_events inputs d (true, (runtime, ipc, changed)) =
      (lost, record d { runtime = runtime; ipc = ipc })
  after_events inputs d (false, progress) =
      let shown =
        publish (settle inputs (daemon_chat_requested d.config d.profile_chat_requested) progress)
          d in
      then_control inputs.clients
        (if inputs.config_changed then on_config_change shown else (goes_on, shown))

  -- The state after the tray's part.
  abbrev pub after_tray : TrayRun I FL → Daemon → Daemon
  after_tray st d =
      let (runtime, ipc) = elim st.follow as (λ _. VoiceRuntimeState × Ipc) [
        | none ↦ (d.runtime, d.ipc)
        | some pair ↦ pair
      ] in
      record d { config = st.config; disk = st.disk; runtime = runtime; ipc = ipc }

  -- One round of the loop; `none` is one that still reads messages after the last of the times.
  unfoldable pub round : Inputs → Daemon → Option (Next × Daemon)
  unfolding after_events drain
  round inputs d =
      let (st, left) =
        process_tray_actions I FL inputs.tray d.profile_chat_requested
          (I.has_scope (lit "messages.read") d.ipc)
          (record {
            config = d.config;
            disk = d.disk;
            follow = some (d.runtime, d.ipc);
            result = no_result;
          }) in
      let e = after_tray st d in
      if st.result.quit_requested
      then some (stops, e)
      else if st.result.reconnect_requested
      then some (reconnects st.result.reauthenticate_requested, e)
      else elim (drain inputs.event_times (e.runtime, e.ipc, st.result.state_changed))
          as (λ _. Option (Next × Daemon)) [
            | none ↦ none
            | some read ↦ some (after_events inputs e read)
          ]

  -- Behind the loop: the voice state is cleared, in the shared memory too.
  unfoldable pub after_loop : Daemon → Daemon
  after_loop d = record d {
    runtime = initial_runtime;
    shm = update_shm initial_runtime.voice d.shm;
  }

  -- The channel that is joined already.
  unfoldable pub adopt_selected : Ipc → VoiceRuntimeState × Ipc
  adopt_selected ipc =
      let (voice, i) = I.get_selected_voice_channel ipc in
      let joined = record initial_runtime { voice = voice } in
      if is_empty voice.channel_id then (joined, i) else (
        record joined { subscribed_channel_id = voice.channel_id },
        I.subscribe_channel voice.channel_id i,
      )

  -- A channel without users is asked for once more.
  unfoldable pub sync_selected : ℕ → ℕ → VoiceRuntimeState × Ipc → VoiceRuntimeState × Ipc
  sync_selected schedule_time sync_time (r, i) =
      let (s, k, update) =
        sync_pending_channel I
          (schedule_channel_sync I (r, i) r.voice.channel_id schedule_time default_sync_config
            false)
          sync_time default_sync_config in
      if not (is_empty r.voice.channel_id) && is_empty r.voice.users then (s, k) else (r, i)

  -- In front of the loop: the subscriptions, the voice state and its chat.
  unfoldable pub start : ℕ → ℕ → Daemon → Daemon
  unfolding publish adopt_selected sync_selected
  start schedule_time sync_time d =
      let (r, i, changed) =
        refresh_chat_state I
          (sync_selected schedule_time sync_time (adopt_selected (I.subscribe_voice d.ipc)))
          (daemon_chat_requested d.config d.profile_chat_requested) in
      publish (r, i, true) d
