-- ===== src/Discord/AuthState.antt =====
-- The authentication that `DiscordIpc` of src/daemon/discord_ipc.h keeps: what waits for a response leaves
-- it as it is, and `authenticate` sets it.
use sigaw.Prelude.{
  ℕ, ◌≡◌, refl, subst, Bool, true, false, not, ◌&&◌, List, [], ◌∷◌, ◌++◌, Option, none, some, ◌==◌,
  Bytes, lit, str_eq, is_empty, if_rule, Option_rule,
}
use sigaw.Json.Interface.{JsonLib, JsonText, contains}
use sigaw.Json.Utils.{string_or}
use sigaw.Discord.Frame.{frame_op, send, close_op, ping_op, recv}
use sigaw.Discord.Inbox.{take_response, store_or_match}
use sigaw.Discord.Wait.{
  PollResult, readable, Round, DiscordIpc, Outcome, again, done, hangs, on_poll, on_message,
  on_frame, on_readable, is_over, wait_round, wait_loop, wait_for_response,
}
use sigaw.Discord.Waiting.{Outcome_rule}
use sigaw.Discord.Call.{Ends, Ends-bind}
use sigaw.Discord.Requests.{
  IpcCall, nonce, transmit, settled, wait_pumped, wait_plain, send_request, clear_auth_state,
  authenticated, authenticate, scopes_of,
}

module _ (J : JsonLib) (T : JsonText J) where
  open J use {Json}

  abbrev pub Auth : Type 0
  Auth = Bool × Bytes × List Bytes

  abbrev pub auth_of : DiscordIpc J T → Auth
  auth_of ipc = (ipc.authed, ipc.access_token, ipc.scopes)

  -- A round leaves the authentication as it is.
  abbrev AuthKept : Auth → Outcome J T → Type 0
  AuthKept a (again ipc) = auth_of ipc ≡ a
  AuthKept a (done status response ipc) = auth_of ipc ≡ a
  AuthKept a (hangs ipc) = auth_of ipc ≡ a

  on_message-AuthKept :
      (n cmd : Bytes) (m : Json) (ipc : DiscordIpc J T)
      → AuthKept (auth_of ipc) (on_message J T n cmd m ipc)
  unfolding on_message
  on_message-AuthKept n cmd m ipc =
      Option_rule (AuthKept (auth_of ipc)) (store_or_match J m n cmd ipc.inbox).0 _ _ (λ _. refl)
        (λ answer _. refl)

  on_frame-AuthKept :
      (n cmd : Bytes) (op : ℕ) (payload : Bytes) (ipc : DiscordIpc J T)
      → AuthKept (auth_of ipc) (on_frame J T n cmd op payload ipc)
  unfolding on_frame
  on_frame-AuthKept n cmd op payload ipc =
      if_rule (AuthKept (auth_of ipc)) (op == ping_op) _ _ (λ _. refl)
        (λ _.
          if_rule (AuthKept (auth_of ipc)) (op == close_op) _ _ (λ _. refl)
            (λ _.
              Option_rule (AuthKept (auth_of ipc)) (T.parse payload) _ _ (λ _. refl)
                (λ m _. on_message-AuthKept n cmd m ipc)))

  on_poll-AuthKept :
      (n cmd : Bytes) (p : PollResult) (ipc : DiscordIpc J T)
      → AuthKept (auth_of ipc) (on_poll J T n cmd p ipc)
  unfolding on_poll on_readable
  on_poll-AuthKept n cmd readable ipc =
      let (got, fd) = recv ipc.fd in
      Option_rule (AuthKept (auth_of ipc)) got _ _ (λ _. refl)
        (λ (op, payload) _. on_frame-AuthKept n cmd op payload (record ipc { fd = fd }))
  on_poll-AuthKept n cmd _ ipc = refl

  wait_round-AuthKept :
      (n cmd : Bytes) (deadline : Option ℕ) (r : Round) (ipc : DiscordIpc J T)
      → AuthKept (auth_of ipc) (wait_round J T n cmd deadline r ipc)
  unfolding wait_round
  wait_round-AuthKept n cmd deadline r ipc =
      if_rule (AuthKept (auth_of ipc)) (not r.pump) _ _ (λ _. refl)
        (λ _.
          if_rule (AuthKept (auth_of ipc)) (is_over J T deadline r.now) _ _ (λ _. refl)
            (λ _. on_poll-AuthKept n cmd r.poll ipc))

  wait_loop-AuthKept :
      (rounds : List Round) (n cmd : Bytes) (deadline : Option ℕ) (ipc : DiscordIpc J T)
      → AuthKept (auth_of ipc) (wait_loop J T rounds n cmd deadline ipc).0
  unfolding wait_loop
  wait_loop-AuthKept [] n cmd deadline ipc =
      Option_rule (λ (o : Outcome J T × List Round). AuthKept (auth_of ipc) o.0) ipc.fd _ _
        (λ _. refl) (λ s _. refl)
  wait_loop-AuthKept (r ∷ rounds) n cmd deadline ipc =
      let kept = wait_round-AuthKept n cmd deadline r ipc in
      Option_rule (λ (o : Outcome J T × List Round). AuthKept (auth_of ipc) o.0) ipc.fd _ _
        (λ _. refl)
        (λ s _.
          Outcome_rule J T (λ (o : Outcome J T × List Round). AuthKept (auth_of ipc) o.0)
            (wait_round J T n cmd deadline r ipc) _ _ _
            (λ next e.
              subst (λ a. AuthKept a (wait_loop J T rounds n cmd deadline next).0)
                (subst (AuthKept (auth_of ipc)) e kept)
                (wait_loop-AuthKept rounds n cmd deadline next))
            (λ status response last e. subst (AuthKept (auth_of ipc)) e kept)
            (λ last e. subst (AuthKept (auth_of ipc)) e kept))

  wait_for_response-AuthKept :
      (rounds : List Round) (n cmd : Bytes) (deadline : Option ℕ) (ipc : DiscordIpc J T)
      → AuthKept (auth_of ipc) (wait_for_response J T rounds n cmd deadline ipc).0
  unfolding wait_for_response
  wait_for_response-AuthKept rounds n cmd deadline ipc =
      Option_rule (λ (o : Outcome J T × List Round). AuthKept (auth_of ipc) o.0)
        (take_response J n cmd ipc.inbox).0 _ _ (λ _. wait_loop-AuthKept rounds n cmd deadline ipc)
        (λ m _. refl)

module _ (J : JsonLib) (T : JsonText J) (rounds_of : Bytes → List Round) where
  open J use {Json}

  -- A call at whose end the authentication is this one.
  abbrev pub Same : {A : Type 0} → Auth J T → A → DiscordIpc J T → Type 0
  Same a x ipc = auth_of J T ipc ≡ a

  settled-Same :
      (a : Auth J T) (o : Outcome J T) → AuthKept J T a o → Ends (Same a) (settled J T rounds_of o)
  settled-Same a (again ipc) h = tt
  settled-Same a (hangs ipc) h = tt
  settled-Same a (done status response ipc) h = h

  pub wait_pumped-Same :
      (n cmd : Bytes) (deadline : Option ℕ) (ipc : DiscordIpc J T)
      → Ends (Same (auth_of J T ipc)) (wait_pumped J T rounds_of n cmd deadline ipc)
  unfolding wait_pumped
  wait_pumped-Same n cmd deadline ipc =
      settled-Same (auth_of J T ipc) _
        (wait_for_response-AuthKept J T (rounds_of n) n cmd deadline ipc)

  wait_plain-Same :
      (n cmd : Bytes) (ipc : DiscordIpc J T)
      → Ends (Same (auth_of J T ipc)) (wait_plain J T rounds_of n cmd ipc)
  unfolding wait_plain
  wait_plain-Same n cmd ipc =
      settled-Same (auth_of J T ipc) _ (wait_for_response-AuthKept J T _ n cmd none ipc)

  send_request-Same :
      (request : Json) (ipc : DiscordIpc J T)
      → Ends (Same (auth_of J T ipc)) (send_request J T rounds_of request ipc)
  unfolding send_request transmit
  send_request-Same request ipc =
      let (sent, fd) = send frame_op (T.dump request) ipc.fd in
      if_rule
        (λ (m : IpcCall J T rounds_of (Option Json)).
          Ends (Same (auth_of J T ipc)) (m (record ipc { fd = fd })))
        (not sent) _ _ (λ _. refl)
        (λ _.
          Ends-bind (Same (auth_of J T ipc)) (Same (auth_of J T ipc)) _ _
            (wait_plain-Same _ _ (record ipc { fd = fd })) (λ r next same. same))

  -- What a connection has that is authenticated: a token.
  pub record Authed (ipc : DiscordIpc J T) : Type 0 where
    pub authed : ipc.authed ≡ true
    pub token : is_empty ipc.access_token ≡ false

  -- What one has that is not: neither token nor scopes.
  abbrev pub no_auth : Auth J T
  no_auth = (false, [], [])

  abbrev pub AuthIs : Bool → DiscordIpc J T → Type 0
  AuthIs true ipc = Authed ipc
  AuthIs false ipc = auth_of J T ipc ≡ no_auth

  authenticated-AuthIs :
      (token : Bytes) (reply : Option Json) (ipc : DiscordIpc J T)
      → is_empty token ≡ false
      → auth_of J T ipc ≡ no_auth
      → Ends AuthIs (authenticated J T rounds_of token reply ipc)
  unfolding authenticated
  authenticated-AuthIs token none ipc full none_yet = none_yet
  authenticated-AuthIs token (some j) ipc full none_yet =
      let authed_now : Authed (record ipc {
        scopes = ipc.scopes ++ scopes_of J T rounds_of j;
        access_token = token;
        authed = true;
      }) =
        record { authed = refl; token = full } in
      if_rule (Ends AuthIs)
        (str_eq (string_or J j (lit "cmd") []) (lit "AUTHENTICATE") && contains J j (lit "data")) _
        _ (λ _. authed_now) (λ _. none_yet)

  -- The end of `authenticate`, whatever the connection was.
  pub authenticate-AuthIs :
      (token : Bytes) (ipc : DiscordIpc J T)
      → is_empty token ≡ false
      → Ends AuthIs (authenticate J T rounds_of token ipc)
  unfolding authenticate clear_auth_state nonce
  authenticate-AuthIs token ipc full =
      Ends-bind (Same no_auth) AuthIs _ _ (send_request-Same _ _)
        (λ reply next same. authenticated-AuthIs token reply next full same)
