-- ===== src/Discord/Authorize.antt =====
-- What `authorize` of src/daemon/discord_ipc.h leaves behind.
use sigaw.Prelude.{
  ℕ, ◌≡◌, refl, subst, Bool, true, false, not, ◌||◌, List, [], Option, none, some, arith, Bytes,
  lit, is_empty, if_rule,
}
use sigaw.Json.Interface.{JsonLib, JsonText, contains}
use sigaw.Json.Utils.{string_or}
use sigaw.Discord.Wait.{WaitStatus, matched, timed_out, aborted, closed, Round, DiscordIpc}
use sigaw.Discord.Call.{Call, Ends, Ends-bind}
use sigaw.Discord.Requests.{
  nonce, transmit, wait_pumped, clear_auth_state, has_scope, scope_satisfied,
}
use sigaw.Discord.Session.{
  AuthorizeResult, concluded, asked, success, missing_scope, load_token, Session, in_session,
  granted, with_token, approved, ask, retry, authorize, token_in,
}
use sigaw.Discord.AuthState.{
  auth_of, Authed, no_auth, AuthIs, wait_pumped-Same, authenticate-AuthIs,
}

module _ (J : JsonLib) (T : JsonText J) (rounds_of : Bytes → List Round) where
  open J use {Json}

  -- What each result says of the connection and of the scope of the messages.
  abbrev pub Granted : Bool → AuthorizeResult → Session J T rounds_of → Type 0
  Granted require success s =
      Authed J T rounds_of s.ipc
      × (require ≡ true → has_scope J T rounds_of (lit "messages.read") s.ipc ≡ true)
  Granted require missing_scope s =
      Authed J T rounds_of s.ipc
      × (require ≡ true)
      × (has_scope J T rounds_of (lit "messages.read") s.ipc ≡ false)
  Granted require _ s = auth_of J T s.ipc ≡ no_auth J T rounds_of

  -- The end of a call on the connection is that of the session's call.
  Ends-in_session :
      {A : Type 0} (Q : A → DiscordIpc J T → Type 0) (s : Session J T rounds_of)
      (o : Option (A × DiscordIpc J T))
      → Ends Q o
      → Ends (λ a (t : Session J T rounds_of). Q a t.ipc) (in_session J T rounds_of s o)
  Ends-in_session Q s none h = tt
  Ends-in_session Q s (some (a, ipc)) h = h

  granted-Granted :
      (require : Bool) (s : Session J T rounds_of)
      → Authed J T rounds_of s.ipc
      → Ends (Granted require) (granted J T rounds_of require s)
  unfolding granted scope_satisfied
  granted-Granted require s h =
      if_rule (λ r. Granted require r s)
        (not require || has_scope J T rounds_of (lit "messages.read") s.ipc) _ _
        (λ e. (h, λ required. ground (arith, e, required)))
        (λ e. (h, ground (arith, e), ground (arith, e)))

  concluded-Granted :
      (require ok : Bool) (s : Session J T rounds_of)
      → AuthIs J T rounds_of ok s.ipc
      → Ends (Granted require) (concluded J T rounds_of require ok s)
  unfolding concluded
  concluded-Granted require true s h = granted-Granted require s h
  concluded-Granted require false s h = h

  -- The new token, on a connection that is not authenticated.
  with_token-Granted :
      (require : Bool) (token : Bytes) (s : Session J T rounds_of)
      → auth_of J T s.ipc ≡ no_auth J T rounds_of
      → Ends (Granted require) (with_token J T rounds_of require token s)
  unfolding with_token
  with_token-Granted require token s h =
      if_rule (λ (m : Call (Session J T rounds_of) AuthorizeResult). Ends (Granted require) (m s))
        (is_empty token) _ _ (λ _. h)
        (λ full.
          Ends-bind (λ ok (t : Session J T rounds_of). AuthIs J T rounds_of ok t.ipc)
            (Granted require) _ _
            (Ends-in_session (AuthIs J T rounds_of) (record s { saved = some token }) _
              (authenticate-AuthIs J T rounds_of token s.ipc full))
            (λ ok t auth. concluded-Granted require ok t auth))

  approved-Granted :
      (exchange : Bytes → Option Bytes) (require : Bool) (status : WaitStatus)
      (response : Option Json) (s : Session J T rounds_of)
      → auth_of J T s.ipc ≡ no_auth J T rounds_of
      → Ends (Granted require) (approved J T rounds_of exchange require status response s)
  unfolding approved
  approved-Granted exchange require matched (some j) s h =
      let code = string_or J (J.at j (lit "data")) (lit "code") [] in
      if_rule (λ (m : Call (Session J T rounds_of) AuthorizeResult). Ends (Granted require) (m s))
        (not (contains J j (lit "data")) || is_empty code) _ _ (λ _. h)
        (λ _. with_token-Granted require (token_in J T rounds_of (exchange code)) s h)
  approved-Granted exchange require matched none s h = h
  approved-Granted exchange require timed_out response s h = h
  approved-Granted exchange require aborted response s h = h
  approved-Granted exchange require closed response s h = h

  asked-Granted :
      (exchange : Bytes → Option Bytes) (require : Bool) (deadline : Option ℕ) (n : Bytes)
      (sent : Bool) (s : Session J T rounds_of)
      → auth_of J T s.ipc ≡ no_auth J T rounds_of
      → Ends (Granted require) (asked J T rounds_of exchange require deadline n sent s)
  unfolding asked
  asked-Granted exchange require deadline n false s h = h
  asked-Granted exchange require deadline n true s h =
      Ends-bind (λ r (t : Session J T rounds_of). auth_of J T t.ipc ≡ no_auth J T rounds_of)
        (Granted require) _ _
        (Ends-in_session (λ r (ipc : DiscordIpc J T). auth_of J T ipc ≡ no_auth J T rounds_of) s _
          (subst
            (λ a.
              Ends (λ r (ipc : DiscordIpc J T). auth_of J T ipc ≡ a)
                (wait_pumped J T rounds_of n (lit "AUTHORIZE") deadline s.ipc))
            h (wait_pumped-Same J T rounds_of n (lit "AUTHORIZE") deadline s.ipc)))
        (λ r t same. approved-Granted exchange require r.0 r.1 t same)

  ask-Granted :
      (exchange : Bytes → Option Bytes) (require : Bool) (deadline : Option ℕ)
      (s : Session J T rounds_of)
      → auth_of J T s.ipc ≡ no_auth J T rounds_of
      → Ends (Granted require) (ask J T rounds_of exchange require deadline s)
  unfolding ask nonce transmit
  ask-Granted exchange require deadline s h = asked-Granted exchange require deadline _ _ _ h

  retry-Granted :
      (exchange : Bytes → Option Bytes) (require : Bool) (deadline : Option ℕ) (ok : Bool)
      (s : Session J T rounds_of)
      → AuthIs J T rounds_of ok s.ipc
      → Ends (Granted require) (retry J T rounds_of exchange require deadline ok s)
  unfolding retry clear_auth_state
  retry-Granted exchange require deadline true s h = granted-Granted require s h
  retry-Granted exchange require deadline false s h = ask-Granted exchange require deadline _ refl

  -- On a connection that is not authenticated, when `authorize` returns: with `Success` or `MissingScope`
  -- the connection is authenticated and keeps a token; the scope of the messages is granted if `Success`
  -- is returned and the scope is required, and it is required and not granted if `MissingScope` is. With
  -- every other result the connection has no authentication, no token and no scopes.
  pub authorize-Granted :
      (exchange : Bytes → Option Bytes) (require : Bool) (deadline : Option ℕ)
      (s : Session J T rounds_of)
      → auth_of J T s.ipc ≡ no_auth J T rounds_of
      → Ends (Granted require) (authorize J T rounds_of exchange require deadline s)
  unfolding authorize
  authorize-Granted exchange require deadline s h =
      let token = load_token s.saved in
      if_rule (λ (m : Call (Session J T rounds_of) AuthorizeResult). Ends (Granted require) (m s))
        (is_empty token) _ _ (λ _. ask-Granted exchange require deadline s h)
        (λ full.
          Ends-bind (λ ok (t : Session J T rounds_of). AuthIs J T rounds_of ok t.ipc)
            (Granted require) _ _
            (Ends-in_session (AuthIs J T rounds_of) s _
              (authenticate-AuthIs J T rounds_of token s.ipc full))
            (λ ok t auth. retry-Granted exchange require deadline ok t auth))
