-- ===== src/Discord/Wait.antt =====
-- The connection `DiscordIpc` of src/daemon/discord_ipc.h: its state, `wait_for_response` and `poll_event`.
use sigaw.Prelude.{
  ℕ, Bool, true, false, not, List, [], ◌∷◌, Option, none, some, ◌==◌, leb, if◌then◌else◌, Bytes,
}
use sigaw.Json.Interface.{JsonLib, JsonText}
use sigaw.Socket.Defs.{Socket}
use sigaw.Discord.Frame.{close_op, ping_op, pong_op, send, recv}
use sigaw.Discord.Inbox.{DiscordMessageInbox, take_dispatch, take_response, store, store_or_match}

pub data WaitStatus : Type 0 where
  matched timed_out aborted closed : WaitStatus

-- What `poll` on the descriptor returns: -1 with EINTR, -1 with another error, 0, a readable socket, a
-- broken one, one that is broken and has
-- bytes left to read, or a readable one on which a `read` of `recv` then waits for a rest of the frame that never
-- comes: the socket blocks.
pub data PollResult : Type 0 where
  interrupted failed idle readable hang_up hang_up_readable stalled : PollResult

-- `revents & POLLIN` after a positive result.
abbrev pub polled_in : PollResult → Bool
polled_in interrupted = false
polled_in failed = false
polled_in idle = false
polled_in readable = true
polled_in hang_up = false
polled_in hang_up_readable = true
polled_in stalled = true

-- `recv` does not return.
abbrev pub is_stalled : PollResult → Bool
is_stalled stalled = true
is_stalled _ = false

-- One round of a loop: what `pump_events` returns (`true` without such a function), the clock in
-- milliseconds, and what `poll` returns.
pub record Round : Type 0 where
  pub pump : Bool
  pub now : ℕ
  pub poll : PollResult

module _ (J : JsonLib) (T : JsonText J) where
  open J use {Json}

  -- `fd` is `none` below 0.
  pub record DiscordIpc : Type 0 where
    pub client_id : Bytes
    pub fd : Option Socket
    pub connected : Bool
    pub authed : Bool
    pub nonce_ctr : ℕ
    pub inbox : DiscordMessageInbox J
    pub access_token : Bytes
    pub scopes : List Bytes

  -- How a round ends: the loop goes on, the function returns, or it stays in a call of `read`.
  pub data Outcome : Type 0 where
    again : DiscordIpc → Outcome
    done : WaitStatus → Option Json → DiscordIpc → Outcome
    hangs : DiscordIpc → Outcome

  -- `connected_ = false; return WaitStatus::Closed;`.
  abbrev pub lost : DiscordIpc → Outcome
  lost ipc = done closed none (record ipc { connected = false })

  -- A message is kept, or it answers the request.
  unfoldable pub on_message : Bytes → Bytes → Json → DiscordIpc → Outcome
  on_message nonce cmd message ipc =
      let (found, inbox) = store_or_match J message nonce cmd ipc.inbox in
      elim found as (λ _. Outcome) [
        | some response ↦ done matched (some response) (record ipc { inbox = inbox })
        | none ↦ again (record ipc { inbox = inbox })
      ]

  -- A frame that was received.
  unfoldable pub on_frame : Bytes → Bytes → ℕ → Bytes → DiscordIpc → Outcome
  on_frame nonce cmd op payload ipc =
      let pong = record ipc { fd = (send pong_op payload ipc.fd).1 } in
      if op == ping_op
      then again pong
      else if op == close_op
      then lost ipc
      else elim (T.parse payload) as (λ _. Outcome) [
        | none ↦ again ipc
        | some message ↦ on_message nonce cmd message ipc
      ]

  -- A readable socket.
  unfoldable pub on_readable : Bytes → Bytes → DiscordIpc → Outcome
  on_readable nonce cmd ipc =
      let (got, fd) = recv ipc.fd in
      elim got as (λ _. Outcome) [
        | none ↦ lost (record ipc { fd = fd })
        | some (op, payload) ↦ on_frame nonce cmd op payload (record ipc { fd = fd })
      ]

  -- What `poll` returned.
  unfoldable pub on_poll : Bytes → Bytes → PollResult → DiscordIpc → Outcome
  on_poll nonce cmd interrupted ipc = again ipc
  on_poll nonce cmd failed ipc = lost ipc
  on_poll nonce cmd idle ipc = again ipc
  on_poll nonce cmd hang_up ipc = lost ipc
  on_poll nonce cmd hang_up_readable ipc = lost ipc
  on_poll nonce cmd stalled ipc = hangs ipc
  on_poll nonce cmd readable ipc = on_readable nonce cmd ipc

  -- The deadline is passed; without one it never is.
  abbrev pub is_over : Option ℕ → ℕ → Bool
  is_over none now = false
  is_over (some deadline) now = leb deadline now

  -- The body of the loop. The timeout that `poll` is given, at most 100 ms and at most what is left until the
  -- deadline, shows in what it returns.
  unfoldable pub wait_round : Bytes → Bytes → Option ℕ → Round → DiscordIpc → Outcome
  wait_round nonce cmd deadline r ipc =
      if not r.pump
      then done aborted none ipc
      else if is_over deadline r.now
      then done timed_out none ipc
      else on_poll nonce cmd r.poll ipc

  -- The loop, on the rounds to come; `again` is a loop that still waits after the last of them.
  unfoldable pub wait_loop :
      List Round → Bytes → Bytes → Option ℕ → DiscordIpc → Outcome × List Round
  wait_loop [] nonce cmd deadline ipc = elim ipc.fd as (λ _. Outcome × List Round) [
    | none ↦ (done closed none ipc, [])
    | some s ↦ (again ipc, [])
  ]
  wait_loop (r ∷ rounds) nonce cmd deadline ipc = elim ipc.fd as (λ _. Outcome × List Round) [
    | none ↦ (done closed none ipc, r ∷ rounds)
    | some s ↦ elim (wait_round nonce cmd deadline r ipc) as (λ _. Outcome × List Round) [
      | again next ↦ wait_loop rounds nonce cmd deadline next
      | done status response last ↦ (done status response last, rounds)
      | hangs last ↦ (hangs last, rounds)
    ]
  ]

  unfoldable pub wait_for_response :
      List Round → Bytes → Bytes → Option ℕ → DiscordIpc → Outcome × List Round
  wait_for_response rounds nonce cmd deadline ipc =
      let (found, inbox) = take_response J nonce cmd ipc.inbox in
      elim found as (λ _. Outcome × List Round) [
        | some response ↦ (done matched (some response) (record ipc { inbox = inbox }), rounds)
        | none ↦ wait_loop rounds nonce cmd deadline ipc
      ]

  -- What `poll_event` returns: an empty value, a dispatch, or the value with the key `_closed`.
  pub data Polled : Type 0 where
    nothing : Polled
    event : Json → Polled
    closed_event : Polled

  -- The part of the loop of `poll_event` behind `recv`: `none` is `continue`.
  unfoldable pub poll_frame : ℕ → Bytes → DiscordIpc → Option Polled × DiscordIpc
  poll_frame op payload ipc =
      let pong = record ipc { fd = (send pong_op payload ipc.fd).1 } in
      if op == ping_op
      then (none, pong)
      else if op == close_op
      then (some closed_event, record ipc { connected = false })
      else elim (T.parse payload) as (λ _. Option Polled × DiscordIpc) [
        | none ↦ (none, ipc)
        | some message ↦
            let (queued, inbox) = take_dispatch J (store J message ipc.inbox) in
            elim queued as (λ _. Option Polled × DiscordIpc) [
              | none ↦ (none, record ipc { inbox = inbox })
              | some j ↦ (some (event j), record ipc { inbox = inbox })
            ]
      ]

  -- The loop, on what `poll` returns in its rounds; `none` is a loop that was not left by their
  -- end.
  unfoldable pub poll_loop : List PollResult → DiscordIpc → Option Polled × DiscordIpc
  poll_loop [] ipc = (none, ipc)
  poll_loop (p ∷ polls) ipc =
      let (got, fd) = recv ipc.fd in
      let on_frame = elim got as (λ _. Option Polled × DiscordIpc) [
        | none ↦ (some closed_event, record ipc { fd = fd; connected = false })
        | some (op, payload) ↦
            let (left, next) = poll_frame op payload (record ipc { fd = fd }) in
            elim left as (λ _. Option Polled × DiscordIpc) [
              | none ↦ poll_loop polls next
              | some polled ↦ (some polled, next)
            ]
      ] in
      if is_stalled p then (none, ipc) else if polled_in p then on_frame else (some nothing, ipc)

  unfoldable pub poll_event : List PollResult → DiscordIpc → Option Polled × DiscordIpc
  poll_event polls ipc =
      let (queued, inbox) = take_dispatch J ipc.inbox in
      let polled = elim ipc.fd as (λ _. Option Polled × DiscordIpc) [
        | none ↦ (some nothing, ipc)
        | some s ↦ poll_loop polls ipc
      ] in
      elim queued as (λ _. Option Polled × DiscordIpc) [
        | some j ↦ (some (event j), record ipc { inbox = inbox })
        | none ↦ polled
      ]
