-- ===== src/Discord/Requests.antt =====
-- The requests of `DiscordIpc` in src/daemon/discord_ipc.h: `send_request`, the subscriptions and
-- `authenticate`.
use sigaw.Prelude.{
  ℕ, ◌+◌, ◌%◌, ◌^◌, Bool, true, false, not, ◌&&◌, ◌||◌, List, [], ◌∷◌, ◌++◌, Option, none, some,
  map, if◌then◌else◌, Bytes, lit, str_eq, is_empty, any_of,
}
use sigaw.Text.{to_string}
use sigaw.Json.Interface.{JsonLib, JsonText, contains}
use sigaw.Json.Utils.{object_or_null, string_or, string_value}
use sigaw.Discord.Frame.{frame_op, send}
use sigaw.Discord.Wait.{
  WaitStatus, matched, Round, DiscordIpc, Outcome, again, done, hangs, wait_for_response,
}
use sigaw.Discord.Call.{Call, pure, modify, ◌>>=◌, ◌>>◌}

-- `rounds_of` has the rounds in which a request's answer is waited for, by the nonce of the request: the
-- counter gives each request its own.
module _ (J : JsonLib) (T : JsonText J) (rounds_of : Bytes → List Round) where
  open J use {Json}

  -- A call on the connection.
  abbrev pub IpcCall : Type 0 → Type 0
  IpcCall A = Call (DiscordIpc J T) A

  -- The counter has 64 bits.
  unfoldable pub nonce : IpcCall Bytes
  nonce ipc =
      let n = (ipc.nonce_ctr + 1) % 2 ^ 64 in
      some (lit "s-" ++ to_string n, record ipc { nonce_ctr = n })

  -- `send` on the connection's descriptor.
  unfoldable pub transmit : ℕ → Bytes → IpcCall Bool
  transmit op payload ipc =
      let (sent, fd) = send op payload ipc.fd in some (sent, record ipc { fd = fd })

  abbrev pub settled : Outcome J T → Option ((WaitStatus × Option Json) × DiscordIpc J T)
  settled (again ipc) = none
  settled (hangs ipc) = none
  settled (done status response ipc) = some ((status, response), ipc)

  -- `wait_for_response` with the function `pump_events`.
  unfoldable pub wait_pumped : Bytes → Bytes → Option ℕ → IpcCall (WaitStatus × Option Json)
  wait_pumped n cmd deadline ipc =
      settled (wait_for_response J T (rounds_of n) n cmd deadline ipc).0

  -- The same without that function and without a timeout.
  unfoldable pub wait_plain : Bytes → Bytes → IpcCall (WaitStatus × Option Json)
  wait_plain n cmd ipc =
      settled
        (wait_for_response J T (map (λ (r : Round). record r { pump = true }) (rounds_of n)) n cmd
          none ipc).0

  -- The response of a matched request.
  abbrev pub matched_response : WaitStatus × Option Json → Option Json
  matched_response (status, response) = elim status as (λ _. Option Json) [
    | matched ↦ response
    | _ ↦ none
  ]

  -- The response; `none` is the return of `false`.
  unfoldable pub send_request : Json → IpcCall (Option Json)
  send_request request = do
    sent ← transmit frame_op (T.dump request)
    if not sent then pure none else do
      r ← wait_plain (string_or J request (lit "nonce") []) (string_or J request (lit "cmd") [])
      pure (matched_response r)

  -- The reply to a subscription is no error.
  abbrev pub accepted : Option Json → Bool
  accepted none = false
  accepted (some response) = not (str_eq (string_or J response (lit "evt") []) (lit "ERROR"))

  -- The request of `sub` and of `unsub`.
  abbrev pub event_request : Bytes → Bytes → Bytes → Json → Json
  event_request cmd n evt args = T.object (
      (lit "cmd", T.string cmd)
      ∷ (lit "nonce", T.string n)
      ∷ (lit "evt", T.string evt)
      ∷ (lit "args", args)
      ∷ [])

  unfoldable pub sub : Bytes → Json → IpcCall Bool
  sub evt args = do
    n ← nonce
    response ← send_request (event_request (lit "SUBSCRIBE") n evt args)
    pure (accepted response)

  unfoldable pub unsub : Bytes → Json → IpcCall Bool
  unsub evt args = do
    n ← nonce
    response ← send_request (event_request (lit "UNSUBSCRIBE") n evt args)
    pure (accepted response)

  -- Calls joined by `&&`: the first that returns `false` is the last.
  unfoldable pub all_of : (Bytes → IpcCall Bool) → List Bytes → IpcCall Bool
  all_of f [] = pure true
  all_of f (evt ∷ evts) = do ok ← f evt; if ok then all_of f evts else pure false

  abbrev pub channel_args : Bytes → Json
  channel_args ch_id = T.object ((lit "channel_id", T.string ch_id) ∷ [])

  abbrev pub channel_events : List Bytes
  channel_events =
      lit "VOICE_STATE_CREATE"
      ∷ lit "VOICE_STATE_UPDATE"
      ∷ lit "VOICE_STATE_DELETE"
      ∷ lit "SPEAKING_START"
      ∷ lit "SPEAKING_STOP"
      ∷ []

  abbrev pub message_events : List Bytes
  message_events = lit "MESSAGE_CREATE" ∷ lit "MESSAGE_UPDATE" ∷ lit "MESSAGE_DELETE" ∷ []

  unfoldable pub subscribe_channel : Bytes → IpcCall Bool
  subscribe_channel ch_id = all_of (λ evt. sub evt (channel_args ch_id)) channel_events

  unfoldable pub unsubscribe_channel : Bytes → IpcCall Bool
  unsubscribe_channel ch_id = all_of (λ evt. unsub evt (channel_args ch_id)) channel_events

  unfoldable pub subscribe_channel_messages : Bytes → IpcCall Bool
  subscribe_channel_messages ch_id = all_of (λ evt. sub evt (channel_args ch_id)) message_events

  unfoldable pub unsubscribe_channel_messages : Bytes → IpcCall Bool
  unsubscribe_channel_messages ch_id = all_of (λ evt. unsub evt (channel_args ch_id)) message_events

  unfoldable pub subscribe_voice : IpcCall Bool
  subscribe_voice ipc =
      if not ipc.authed
      then some (false, ipc)
      else sub (lit "VOICE_CHANNEL_SELECT") (T.object []) ipc

  -- `clear_auth_state`.
  unfoldable pub clear_auth_state : DiscordIpc J T → DiscordIpc J T
  clear_auth_state ipc = record ipc { authed = false; access_token = []; scopes = [] }

  -- The names of the granted scopes, in the reply to AUTHENTICATE.
  unfoldable pub named_scopes : List Json → List Bytes
  named_scopes [] = []
  named_scopes (scope ∷ rest) =
      let name = string_value J scope [] in
      let names = named_scopes rest in if is_empty name then names else name ∷ names

  unfoldable pub scopes_of : Json → List Bytes
  scopes_of j = elim (object_or_null J j (lit "data")) as (λ _. List Bytes) [
    | none ↦ []
    | some d ↦ elim (J.find d (lit "scopes")) as (λ _. List Bytes) [
      | none ↦ []
      | some a ↦ if J.is_array a then named_scopes (J.elements a) else []
    ]
  ]

  -- What the reply to AUTHENTICATE does to the connection.
  unfoldable pub authenticated : Bytes → Option Json → IpcCall Bool
  authenticated token none ipc = some (false, ipc)
  authenticated token (some j) ipc =
      if str_eq (string_or J j (lit "cmd") []) (lit "AUTHENTICATE") && contains J j (lit "data")
      then some (
        true,
        record ipc { scopes = ipc.scopes ++ scopes_of j; access_token = token; authed = true },
      )
      else some (false, ipc)

  unfoldable pub authenticate : Bytes → IpcCall Bool
  authenticate token = do
    modify clear_auth_state
    n ← nonce
    response ← send_request (
        T.object (
          (lit "cmd", T.string (lit "AUTHENTICATE"))
          ∷ (lit "nonce", T.string n)
          ∷ (lit "args", T.object ((lit "access_token", T.string token) ∷ []))
          ∷ []))
    authenticated token response

  unfoldable pub has_scope : Bytes → DiscordIpc J T → Bool
  has_scope scope ipc = any_of (str_eq scope) ipc.scopes

  unfoldable pub scope_satisfied : Bool → DiscordIpc J T → Bool
  unfolding has_scope
  scope_satisfied require_messages_read ipc =
      not require_messages_read || has_scope (lit "messages.read") ipc
