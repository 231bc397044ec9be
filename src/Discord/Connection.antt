-- ===== src/Discord/Connection.antt =====
-- `DiscordIpc` of src/daemon/discord_ipc.h as the connection of src/daemon/voice_runtime.h and src/daemon/main.cpp.
use sigaw.Prelude.{false, [], List, Option, none, some, Bytes}
use sigaw.Json.Interface.{JsonLib, JsonText}
use sigaw.Voice.State.{no_voice}
use sigaw.Voice.Ipc.{IpcLib}
use sigaw.Discord.Wait.{DiscordIpc, Round}
use sigaw.Discord.Call.{Call}
use sigaw.Discord.Requests
use sigaw.Discord.Replies

module _ (J : JsonLib) (T : JsonText J) (rounds_of : Bytes → List Round) where
  -- The connection, or `none` while a call on it has not returned.
  abbrev pub Connection : Type 0
  Connection = Option (DiscordIpc J T)

  -- The value of a call, if it returns, and what is left of the connection.
  abbrev pub finished : {A : Type 0} → A → Option (A × DiscordIpc J T) → A × Connection
  finished stuck none = (stuck, none)
  finished stuck (some (x, s)) = (x, some s)

  abbrev pub run : {A : Type 0} → A → Call (DiscordIpc J T) A → Connection → A × Connection
  run stuck call none = (stuck, none)
  run stuck call (some s) = finished stuck (call s)

  abbrev pub ask_of : {A : Type 0} → A → (DiscordIpc J T → A) → Connection → A
  ask_of stuck f none = stuck
  ask_of stuck f (some s) = f s

  -- The results that the callers ignore are dropped here.
  abbrev pub discord_connection : IpcLib
  discord_connection = record {
    Ipc = Connection;
    subscribe_voice = λ s. (run false (Requests.subscribe_voice J T rounds_of) s).1;
    subscribe_channel = λ c s. (run false (Requests.subscribe_channel J T rounds_of c) s).1;
    unsubscribe_channel = λ c s. (run false (Requests.unsubscribe_channel J T rounds_of c) s).1;
    get_selected_voice_channel = run no_voice (Replies.get_selected_voice_channel J T rounds_of);
    local_user = ask_of (record { id = 0; username = []; avatar = [] }) (λ s. s.inbox.local_user);
    has_scope = λ scope. ask_of false (Requests.has_scope J T rounds_of scope);
    subscribe_channel_messages =
        λ c. run false (Requests.subscribe_channel_messages J T rounds_of c);
    unsubscribe_channel_messages =
        λ c s. (run false (Requests.unsubscribe_channel_messages J T rounds_of c) s).1;
  }
