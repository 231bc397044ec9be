-- ===== src/Tests/Rounds.antt =====
-- The theorems of Control, Daemon and Config/Roundtrip at concrete inputs.
use sigaw.Prelude.{
  any_of, ℕ, zero, suc, ◌≤◌, ◌≡◌, refl, ap, true, false, List, [], ◌∷◌, Option, none, some, arith,
  if◌then◌else◌, Bytes, lit, length, replicate,
}
use sigaw.Voice.State.{VoiceRuntimeState, initial_runtime}
use sigaw.Voice.Ledger.{ledger}
use sigaw.Voice.Balanced.{Balanced}
use sigaw.Discord.Wait.{DiscordIpc}
use sigaw.Shm.Writer.{update_shm}
use sigaw.Socket.Defs.{Socket}
use sigaw.Socket.Transfer.{Live}
use sigaw.Protocol.{SigawState, sigaw_magic, sigaw_version, sigaw_ctl_toggle, sigaw_ctl_quit}
use sigaw.Config.Types.{Config, default_config}
use sigaw.Config.Text.{trim_front, trim_back}
use sigaw.Config.Store.{Disk, written, save, load}
use sigaw.Config.Items.{IsStorable}
use sigaw.Config.Roundtrip.{load-save}
use sigaw.Tray.Plan.{toggle_overlay, toggle_voice_messages}
use sigaw.Control.Wire.{request_bytes}
use sigaw.Control.Server.{Action, handle_client, process_pending}
use sigaw.Control.Client.{send_ctl_request}
use sigaw.Control.Exchange.{Ready, accepted, Done, send_ctl_request-handle_client}
use sigaw.Control.Pending.{Handles, strongest, process_pending-Handles}
use sigaw.Daemon.Loop.{Polled, nothing_pending, Inputs, round, start}
use sigaw.Daemon.Displayed.{displayed, Published}
use sigaw.Daemon.Balanced.{ledger_poll, Logged, BalancedRound, round-Balanced, start-Balanced}
use sigaw.Tests.Parameters.{
  Value, tree_json, text_float, tree_text, in_lobby, shut, shut_connection, in_lobby-Balanced,
}

abbrev defaults : Config text_float
defaults = default_config text_float

-- No file yet, and room for one.
abbrev no_file : Disk
no_file = record { text = none; readable = true; writes = written }

defaults-IsStorable : IsStorable text_float defaults
unfolding any_of default_config trim_front trim_back lit
defaults-IsStorable = record {
  scale = record {
    trimmed = record { at_front = refl; at_back = refl };
    some_byte = refl;
    one_line = refl;
    read = refl;
  };
  opacity = record {
    trimmed = record { at_front = refl; at_back = refl };
    some_byte = refl;
    one_line = refl;
    read = refl;
  };
  max_visible = omega arith;
  max_visible_chat_messages = (4, refl, omega arith, omega arith);
  client_id = record {
    trimmed = record { at_front = refl; at_back = refl };
    some_byte = refl;
    one_line = refl;
  };
  client_secret = record {
    trimmed = record { at_front = refl; at_back = refl };
    some_byte = refl;
    one_line = refl;
  };
}

load-save_example :
    ((save text_float defaults no_file).0 ≡ true)
    × (load text_float (save text_float defaults no_file).1 ≡ defaults)
load-save_example = load-save text_float defaults no_file refl refl refl defaults-IsStorable

-- Calls that get a byte each.
abbrev singles : ℕ → List ℕ
singles n = replicate n 1

singles-Live : (n : ℕ) → Live (singles n)
singles-Live zero = tt
singles-Live (suc n) = (omega arith, singles-Live n)

length-singles : (n : ℕ) → length (singles n) ≡ n
length-singles zero = refl
length-singles (suc n) = ap suc (length-singles n)

abbrev socket_with : Bytes → Socket
socket_with bytes = record {
  incoming = bytes;
  reads = singles 264;
  outgoing = [];
  writes = singles 264;
}

ready : (bytes : Bytes) (m n : ℕ) → m ≤ 264 → n ≤ 264 → Ready (socket_with bytes) m n
ready bytes m n h k = record {
  reads = singles-Live 264;
  enough = omega (arith, h, length-singles 264);
  writes = singles-Live 264;
  room = omega (arith, k, length-singles 264);
}

abbrev toggling : Socket
toggling = socket_with (request_bytes sigaw_ctl_toggle)

abbrev answered : Socket
answered = socket_with (handle_client text_float toggling (defaults, no_file)).1.outgoing

send_ctl_request-handle_client_example :
    let (action, served, after) = handle_client text_float toggling (defaults, no_file) in
    ((send_ctl_request sigaw_ctl_toggle (some answered)).0.0
      ≡ (if accepted text_float sigaw_ctl_toggle (defaults, no_file) then 0 else 1))
    × Done text_float sigaw_ctl_toggle (defaults, no_file) action after
send_ctl_request-handle_client_example =
    send_ctl_request-handle_client text_float sigaw_ctl_toggle toggling answered (defaults, no_file)
      (omega arith) refl refl (ready _ 8 264 (omega arith) (omega arith))
      (ready _ 264 8 (omega arith) (omega arith)) refl

abbrev two_clients : List Socket
two_clients = toggling ∷ socket_with (request_bytes sigaw_ctl_quit) ∷ []

process_pending-Handles_example :
    let (action, served, final) =
      process_pending text_float (some two_clients) (defaults, no_file) in
    (actions : List Action) × Handles text_float two_clients
      (defaults, no_file)
      actions
      served
      final
    × (action ≡ strongest actions)
process_pending-Handles_example = process_pending-Handles text_float two_clients (defaults, no_file)

abbrev quiet_poll :
    Option (DiscordIpc tree_json tree_text) → Polled Value × Option (DiscordIpc tree_json tree_text)
quiet_poll s = (nothing_pending, s)

-- A mapping that is open.
abbrev blank : SigawState
blank = record {
  header = record {
    magic = sigaw_magic;
    version = sigaw_version;
    sequence = 0;
    channel_name_len = 0;
    channel_name = [];
  };
  user_count = 0;
  chat_count = 0;
  users = [];
  chat_messages = [];
}

-- The daemon in the channel 42, which the memory shows.
abbrev running :
    VoiceRuntimeState → List Bytes → Logged tree_json shut_connection text_float quiet_poll
running runtime asked = record {
  config = defaults;
  disk = no_file;
  profile_chat_requested = false;
  runtime = runtime;
  ipc = (asked, some shut);
  shm = update_shm (displayed runtime.voice) (some blank);
}

-- Two entries of the menu and two clients.
abbrev busy : Inputs
busy = record {
  tray = some (toggle_overlay ∷ toggle_voice_messages ∷ []);
  event_times = 1000000 ∷ [];
  sync_time = 2000000;
  prune_time = 3000000;
  config_changed = false;
  clients = some two_clients;
}

round-Balanced_example : BalancedRound tree_json shut_connection text_float quiet_poll busy (
    round tree_json
      (ledger shut_connection)
      text_float
      (ledger_poll tree_json shut_connection text_float quiet_poll)
      busy
      (running in_lobby (lit "42" ∷ [])))
round-Balanced_example =
    round-Balanced tree_json shut_connection text_float quiet_poll busy
      (running in_lobby (lit "42" ∷ [])) in_lobby-Balanced (some blank, refl)

start-Balanced_example :
    let e =
      start tree_json
        (ledger shut_connection)
        text_float
        (ledger_poll tree_json shut_connection text_float quiet_poll)
        5
        6
        (running initial_runtime []) in
    Balanced e.runtime e.ipc.0 × Published e.runtime.voice e.shm
start-Balanced_example =
    start-Balanced tree_json shut_connection text_float quiet_poll 5 6 (running initial_runtime [])
      refl
