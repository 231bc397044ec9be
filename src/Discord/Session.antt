-- ===== src/Discord/Session.antt =====
-- The start of a connection: `connect`, `disconnect`, `handshake`, `exchange_token` and `authorize` of
-- `DiscordIpc` in src/daemon/discord_ipc.h, with the file that keeps the token.
use sigaw.Prelude.{
  ℕ, zero, suc, ◌+◌, Bool, true, false, not, ◌&&◌, ◌||◌, List, [], ◌∷◌, ◌++◌, Option, none, some,
  ◌==◌, if◌then◌else◌, Bytes, lit, str_eq, is_empty, take,
}
use sigaw.Text.{to_string}
use sigaw.Json.Interface.{JsonLib, JsonText, contains}
use sigaw.Json.Utils.{string_or}
use sigaw.Socket.Defs.{Socket}
use sigaw.Discord.Frame.{handshake_op, frame_op, recv}
use sigaw.Discord.Inbox.{empty_inbox, observe}
use sigaw.Discord.Wait.{WaitStatus, matched, timed_out, aborted, closed, Round, DiscordIpc}
use sigaw.Discord.Call.{Call, pure, modify, ◌>>=◌, ◌>>◌}
use sigaw.Discord.Requests.{
  IpcCall, nonce, transmit, wait_pumped, clear_auth_state, authenticate, scope_satisfied,
}

pub data AuthorizeResult : Type 0 where
  success missing_scope not_in_time given_up failed : AuthorizeResult

-- The first line of a file: `std::getline`.
unfoldable pub first_line : Bytes → Bytes
first_line [] = []
first_line (c ∷ cs) = let rest = first_line cs in if c == 10 then [] else c ∷ rest

-- What the token's file holds, if it exists.
unfoldable pub load_token : Option Bytes → Bytes
load_token none = []
load_token (some content) = first_line content

-- The paths that `connect` tries, in this order, for `n` numbers from `i`.
unfoldable pub socket_paths : Bytes → ℕ → ℕ → List Bytes
socket_paths rd i zero = []
socket_paths rd i (suc n) =
    let name = lit "/discord-ipc-" ++ to_string i in
    (rd ++ name)
    ∷ (rd ++ (lit "/app/com.discordapp.Discord" ++ name))
    ∷ (lit "/tmp" ++ name)
    ∷ socket_paths rd (i + 1) n

-- The first path at which a socket answers; `sun_path` takes 107 bytes of it. `dial` is what `socket` and
-- `::connect` give for a path.
unfoldable pub first_socket : (Bytes → Option Socket) → List Bytes → Option Socket
first_socket dial [] = none
first_socket dial (path ∷ paths) = elim (dial (take 107 path)) as (λ _. Option Socket) [
  | some s ↦ some s
  | none ↦ first_socket dial paths
]

module _ (J : JsonLib) (T : JsonText J) (rounds_of : Bytes → List Round) where
  open J use {Json}

  -- `rd` is `XDG_RUNTIME_DIR`, or the directory of the user under /run/user.
  unfoldable pub connect : (Bytes → Option Socket) → Bytes → DiscordIpc J T → Bool × DiscordIpc J T
  connect dial rd ipc =
      elim (first_socket dial (socket_paths rd 0 10)) as (λ _. Bool × DiscordIpc J T) [
        | none ↦ (false, ipc)
        | some s ↦ (true, record ipc { fd = some s; connected = true })
      ]

  unfoldable pub disconnect : DiscordIpc J T → DiscordIpc J T
  unfolding clear_auth_state
  disconnect ipc = record (clear_auth_state J T rounds_of ipc) {
    fd = none;
    connected = false;
    inbox = empty_inbox J;
  }

  -- The frame that answers the handshake.
  unfoldable pub greeted : Option (ℕ × Bytes) → IpcCall J T rounds_of Bool
  greeted none ipc = some (false, ipc)
  greeted (some (op, r)) ipc = elim (T.parse r) as (λ _. Option (Bool × DiscordIpc J T)) [
    | none ↦ some (false, ipc)
    | some j ↦ some (
      str_eq (string_or J j (lit "cmd") []) (lit "DISPATCH")
          && str_eq (string_or J j (lit "evt") []) (lit "READY"),
      record ipc { inbox = observe J j ipc.inbox },
    )
  ]

  -- `recv` on the connection's descriptor.
  unfoldable pub receive : IpcCall J T rounds_of (Option (ℕ × Bytes))
  receive ipc = let (got, fd) = recv ipc.fd in some (got, record ipc { fd = fd })

  unfoldable pub handshake : IpcCall J T rounds_of Bool
  handshake ipc =
      let hello =
        T.dump
          (T.object ((lit "v", T.number 1) ∷ (lit "client_id", T.string ipc.client_id) ∷ [])) in
      (do
        sent ← transmit J T rounds_of handshake_op hello
        if not sent then pure false else do got ← receive; greeted got)
        ipc

  -- The token in the response of the HTTP interface; none is an empty text. For a field that is no text the
  -- conversion throws, and the value below is the library's.
  unfoldable pub token_in : Option Bytes → Bytes
  token_in none = []
  token_in (some response) = elim (T.parse response) as (λ _. Bytes) [
    | none ↦ []
    | some j ↦
        if contains J j (lit "access_token") then J.get_string (J.at j (lit "access_token")) else []
  ]

  -- The connection with the file of the token.
  pub record Session : Type 0 where
    pub ipc : DiscordIpc J T
    pub saved : Option Bytes

  abbrev pub in_session :
      {A : Type 0} → Session → Option (A × DiscordIpc J T) → Option (A × Session)
  in_session s none = none
  in_session s (some (a, ipc)) = some (a, record s { ipc = ipc })

  abbrev pub on_ipc : {A : Type 0} → IpcCall J T rounds_of A → Call Session A
  on_ipc m s = in_session s (m s.ipc)

  abbrev pub set_saved : Option Bytes → Call Session (Unit {0})
  set_saved content s = some (tt, record s { saved = content })

  -- The end of `authorize` once the connection is authenticated.
  unfoldable pub granted : Bool → Call Session AuthorizeResult
  granted require_messages_read s = some (
    if scope_satisfied J T rounds_of require_messages_read s.ipc then success else missing_scope,
    s,
  )

  -- What follows the attempt with the new token.
  unfoldable pub concluded : Bool → Bool → Call Session AuthorizeResult
  concluded require true = granted require
  concluded require false = do set_saved none; pure failed

  -- The part behind the exchange of the code for a token. That the file can be written is supposed.
  unfoldable pub with_token : Bool → Bytes → Call Session AuthorizeResult
  with_token require_messages_read token = if is_empty token then pure failed else do
    set_saved (some token)
    ok ← on_ipc (authenticate J T rounds_of token)
    concluded require_messages_read ok

  -- What follows the wait for the user's approval. `exchange` is libcurl's POST of a code to the HTTP
  -- interface.
  unfoldable pub approved :
      (Bytes → Option Bytes) → Bool → WaitStatus → Option Json → Call Session AuthorizeResult
  approved exchange require timed_out response = pure not_in_time
  approved exchange require aborted response = pure given_up
  approved exchange require closed response = pure failed
  approved exchange require matched none = pure failed
  approved exchange require matched (some j) =
      let code = string_or J (J.at j (lit "data")) (lit "code") [] in
      if not (contains J j (lit "data")) || is_empty code
      then pure failed
      else with_token require (token_in (exchange code))

  -- The scopes that are asked for.
  abbrev pub wanted_scopes : Bool → List Json
  wanted_scopes require_messages_read =
      T.string (lit "rpc")
      ∷ T.string (lit "rpc.voice.read")
      ∷ (if require_messages_read then T.string (lit "messages.read") ∷ [] else [])

  abbrev pub authorize_request : Bool → Bytes → Bytes → Json
  authorize_request require client n = T.object (
      (lit "cmd", T.string (lit "AUTHORIZE"))
      ∷ (lit "nonce", T.string n)
      ∷ (
        lit "args",
        T.object (
            (lit "client_id", T.string client)
            ∷ (lit "scopes", T.array (wanted_scopes require))
            ∷ []),
      )
      ∷ [])

  -- What follows the request, once it is sent.
  unfoldable pub asked :
      (Bytes → Option Bytes) → Bool → Option ℕ → Bytes → Bool → Call Session AuthorizeResult
  asked exchange require deadline n false = pure failed
  asked exchange require deadline n true = do
    r ← on_ipc (wait_pumped J T rounds_of n (lit "AUTHORIZE") deadline)
    approved exchange require r.0 r.1

  -- The part of `authorize` that asks the user.
  unfoldable pub ask : (Bytes → Option Bytes) → Bool → Option ℕ → Call Session AuthorizeResult
  ask exchange require deadline s =
      let client = s.ipc.client_id in
      (do
        n ← on_ipc (nonce J T rounds_of)
        sent ←
            on_ipc (transmit J T rounds_of frame_op (T.dump (authorize_request require client n)))
        asked exchange require deadline n sent)
        s

  -- What follows the attempt with the saved token.
  unfoldable pub retry :
      (Bytes → Option Bytes) → Bool → Option ℕ → Bool → Call Session AuthorizeResult
  retry exchange require deadline true = granted require
  retry exchange require deadline false = do
    set_saved none
    on_ipc (modify (clear_auth_state J T rounds_of))
    ask exchange require deadline

  unfoldable pub authorize : (Bytes → Option Bytes) → Bool → Option ℕ → Call Session AuthorizeResult
  authorize exchange require_messages_read deadline s =
      let token = load_token s.saved in
      (if is_empty token then ask exchange require_messages_read deadline else do
        ok ← on_ipc (authenticate J T rounds_of token)
        retry exchange require_messages_read deadline ok)
        s
