-- ===== src/Control/Server.antt =====
-- `ControlServer` of src/daemon/control_server.h: `send_response`, `handle_client` and `process_pending`.
use sigaw.Prelude.{ℕ, not, List, [], ◌∷◌, Option, none, some, ◌==◌, if◌then◌else◌, Bytes, lit}
use sigaw.Protocol.{sigaw_ctl_status, sigaw_ctl_toggle, sigaw_ctl_reload, sigaw_ctl_quit}
use sigaw.Shm.Strings.{strncpy_terminated}
use sigaw.Socket.Defs.{Socket, read_all, write_all}
use sigaw.Config.Types.{FloatLib, Config}
use sigaw.Config.Store.{Disk, save, load}
use sigaw.Control.Wire.{response_bytes, request_command}

pub data Action : Type 0 where
  nothing refresh reload quit : Action

unfoldable pub send_response : ℕ → ℕ → Bytes → Socket → Socket
send_response command status message client =
    (write_all
      (response_bytes
        (record { command = command; status = status; message = strncpy_terminated 255 message }))
      client).1

-- The action after a client with the second action.
unfoldable pub merged : Action → Action → Action
merged action reload = reload
merged nothing refresh = refresh
merged action _ = action

module _ (FL : FloatLib) where
  -- The configuration in memory, and the file.
  abbrev pub Settings : Type 0
  Settings = Config FL × Disk

  -- What is done for a client: the action, its socket and the settings.
  abbrev pub Handled : Type 0
  Handled = Action × Socket × Settings

  -- The case of SIGAW_CTL_TOGGLE.
  unfoldable pub toggle : ℕ → Socket → Settings → Handled
  toggle command client (config, disk) =
      let next = record config { visible = not config.visible } in
      let (saved, after) = save FL next disk in
      if not saved
      then (nothing, send_response command 1 (lit "failed to persist config") client, (next, after))
      else (
        refresh,
        send_response command 0
            (if next.visible then lit "overlay visible" else lit "overlay hidden") client,
        (next, after),
      )

  -- The `switch` on the command.
  unfoldable pub on_command : ℕ → Socket → Settings → Handled
  unfolding toggle
  on_command command client (config, disk) =
      if command == sigaw_ctl_status
      then (nothing, send_response command 0 (lit "ok") client, (config, disk))
      else if command == sigaw_ctl_toggle
      then toggle command client (config, disk)
      else if command == sigaw_ctl_reload
      then (
        reload,
        send_response command 0 (lit "configuration reloaded") client,
        (load FL disk, disk),
      )
      else if command == sigaw_ctl_quit
      then (quit, send_response command 0 (lit "daemon stopping") client, (config, disk))
      else (nothing, send_response command 1 (lit "unknown command") client, (config, disk))

  -- What `read_all` gave for the request.
  unfoldable pub on_request : Option Bytes → Socket → Settings → Handled
  unfolding on_command
  on_request none client settings =
      (nothing, send_response 0 1 (lit "invalid request") client, settings)
  on_request (some request) client settings = on_command (request_command request) client settings

  unfoldable pub handle_client : Socket → Settings → Handled
  unfolding on_request
  handle_client client settings =
      let (got, served) = read_all 8 client in on_request got served settings

  -- A client's part, and what the loop makes of the clients behind it.
  unfoldable pub then_others :
      Handled → Action × List Socket × Settings → Action × List Socket × Settings
  then_others (quit, served, after) others = (quit, served ∷ [], after)
  then_others (_, served, after) (last, others, final) = (last, served ∷ others, final)

  -- The loop: the clients that `accept` gives before it fails, the sockets of those that were handled, and
  -- the settings. A client behind one that stops the daemon is not accepted.
  unfoldable pub process_loop : Action → List Socket → Settings → Action × List Socket × Settings
  unfolding merged then_others
  process_loop action [] settings = (action, [], settings)
  process_loop action (client ∷ clients) settings =
      let handled = handle_client client settings in
      then_others handled (process_loop (merged action handled.0) clients handled.2)

  -- `none` for the clients is a server that is not open.
  unfoldable pub process_pending : Option (List Socket) → Settings → Action × List Socket × Settings
  unfolding process_loop
  process_pending none settings = (nothing, [], settings)
  process_pending (some clients) settings = process_loop nothing clients settings
