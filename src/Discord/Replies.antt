-- ===== src/Discord/Replies.antt =====
-- The queries of `DiscordIpc` in src/daemon/discord_ipc.h: `get_selected_voice_channel` and
-- `get_channel_messages`.
use sigaw.Prelude.{
  ℕ, false, not, ◌||◌, List, [], ◌∷◌, ◌++◌, Option, none, some, map, ltb, min, max, if◌then◌else◌,
  Bytes, lit, is_empty,
}
use sigaw.Text.{to_string}
use sigaw.Json.Interface.{JsonLib, JsonText, contains}
use sigaw.Json.Utils.{object_or_null, string_or, u64_or, bool_or, voice_display_name}
use sigaw.Voice.State.{VoiceUser, new_user, VoiceState, no_voice}
use sigaw.Discord.Wait.{Round, DiscordIpc}
use sigaw.Discord.Call.{Call, pure, ◌>>=◌}
use sigaw.Discord.Requests.{nonce, send_request}

module _ (J : JsonLib) (T : JsonText J) where
  open J use {Json}

  -- The user of an entry of `voice_states`, before the flags.
  unfoldable pub listed_account : Json → VoiceUser
  listed_account e = elim (object_or_null J e (lit "user")) as (λ _. VoiceUser) [
    | none ↦ new_user 0
    | some eu ↦ record (new_user 0) {
      id = u64_or J eu (lit "id") 0;
      username = voice_display_name J e (some eu) (lit "???");
      avatar = string_or J eu (lit "avatar") [];
    }
  ]

  unfoldable pub listed_user : Json → VoiceUser
  unfolding listed_account
  listed_user e =
      let v = if contains J e (lit "voice_state") then J.at e (lit "voice_state") else e in
      record (listed_account e) {
        self_mute = bool_or J v (lit "self_mute") false;
        self_deaf = bool_or J v (lit "self_deaf") false;
        server_mute = bool_or J v (lit "mute") false;
        server_deaf = bool_or J v (lit "deaf") false;
      }

  -- The state that the reply describes.
  unfoldable pub voice_of : Json → VoiceState
  unfolding listed_user
  voice_of j =
      let d = J.at j (lit "data") in
      if not (contains J j (lit "data")) || J.is_null d then no_voice else record no_voice {
        channel_id = string_or J d (lit "id") [];
        channel_name = string_or J d (lit "name") [];
        guild_id = string_or J d (lit "guild_id") [];
        users =
            if contains J d (lit "voice_states")
            then map listed_user (J.elements (J.at d (lit "voice_states")))
            else [];
      }

  unfoldable pub get_selected_voice_channel :
      (Bytes → List Round) → Call (DiscordIpc J T) VoiceState
  get_selected_voice_channel rounds_of = do
    n ← nonce J T rounds_of
    response ← send_request J T rounds_of (
        T.object (
          (lit "cmd", T.string (lit "GET_SELECTED_VOICE_CHANNEL"))
          ∷ (lit "nonce", T.string n)
          ∷ (lit "args", T.object [])
          ∷ []))
    pure (elim response as (λ _. VoiceState) [ none ↦ no_voice | some j ↦ voice_of j ])

  -- `std::clamp<size_t>(limit, 1u, 100u)`.
  unfoldable pub clamped_limit : ℕ → ℕ
  clamped_limit limit = min (max limit 1) 100

  -- The messages; `none` is the return of `false`. `http_get` is what libcurl makes of a GET request for an
  -- address with a header: the status and the body, or no response.
  unfoldable pub get_channel_messages :
      (Bytes → Bytes → Option (ℕ × Bytes)) → DiscordIpc J T → Bytes → ℕ → Option (List Json)
  unfolding clamped_limit
  get_channel_messages http_get ipc channel_id limit =
      let url =
        lit "https://discord.com/api/v10/channels/"
        ++ (channel_id ++ (lit "/messages?limit=" ++ to_string (clamped_limit limit))) in
      let fetched =
        elim (http_get url (lit "Authorization: Bearer " ++ ipc.access_token))
          as (λ _. Option (List Json)) [
            | none ↦ none
            | some (status, response) ↦
                let parsed = elim (T.parse response) as (λ _. Option (List Json)) [
                  | none ↦ none
                  | some j ↦ if J.is_array j then some (J.elements j) else none
                ] in
                if ltb status 200 || not (ltb status 300) then none else parsed
          ] in
      if not ipc.authed || is_empty ipc.access_token || is_empty channel_id then none else fetched
