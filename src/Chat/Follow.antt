-- ===== src/Chat/Follow.antt =====
-- Following the chat of the voice channel: `unsubscribe_chat_events`, `clear_chat_state` with a connection and
-- `refresh_chat_state` of src/daemon/main.cpp. The connection is the parameter IpcLib of Voice.
use sigaw.Prelude.{
  ◌≡◌, refl, Bool, true, false, not, ◌&&◌, ◌||◌, [], arith, if◌then◌else◌, Bytes, lit, str_eq,
  str_eq_refl, is_empty, is_empty→nil, if_rule,
}
use sigaw.Voice.State.{VoiceRuntimeState}
use sigaw.Voice.Ipc.{IpcLib}

module _ (I : IpcLib) where
  open I use {Ipc}

  unfoldable pub unsubscribe_chat_events : VoiceRuntimeState × Ipc → VoiceRuntimeState × Ipc
  unsubscribe_chat_events (runtime, ipc) =
      if not (is_empty runtime.subscribed_chat_channel_id)
      then (
        record runtime { subscribed_chat_channel_id = []; live_chat_events = false },
        I.unsubscribe_channel_messages runtime.subscribed_chat_channel_id ipc,
      )
      else (record runtime { live_chat_events = false }, ipc)

  -- The Boolean is the result of the function.
  unfoldable pub clear_chat_state : VoiceRuntimeState × Ipc → VoiceRuntimeState × Ipc × Bool
  clear_chat_state (runtime, ipc) =
      let had_chat =
        not (is_empty runtime.voice.chat_messages)
        || not (is_empty runtime.active_chat_channel_id)
        || not (is_empty runtime.subscribed_chat_channel_id) in
      let (s, i) = unsubscribe_chat_events (runtime, ipc) in
      (
        record s { active_chat_channel_id = []; voice = record s.voice { chat_messages = [] } },
        i,
        had_chat,
      )

  unfoldable pub refresh_chat_state :
      VoiceRuntimeState × Ipc → Bool → VoiceRuntimeState × Ipc × Bool
  refresh_chat_state (runtime, ipc) want_chat =
      let (s, i, had_chat) = clear_chat_state (runtime, ipc) in
      let s' = record s { active_chat_channel_id = runtime.voice.channel_id } in
      let (subscribed, i') = I.subscribe_channel_messages runtime.voice.channel_id i in
      if not want_chat
        || not (I.has_scope (lit "messages.read") ipc)
        || is_empty runtime.voice.channel_id
      then (s, i, had_chat)
      else if str_eq runtime.active_chat_channel_id runtime.voice.channel_id
      then (runtime, ipc, false)
      else if not subscribed
      then (s', i', had_chat)
      else (
        record s' {
          subscribed_chat_channel_id = runtime.voice.channel_id;
          live_chat_events = true;
        },
        i',
        had_chat,
      )

  -- The chat is asked for, allowed, and there is a channel for it.
  abbrev pub chat_wanted : VoiceRuntimeState × Ipc → Bool → Bool
  chat_wanted (runtime, ipc) want_chat =
      want_chat && I.has_scope (lit "messages.read") ipc && not (is_empty runtime.voice.channel_id)

  -- A chat subscription is of the channel that is followed, and then events are expected.
  pub record IsFollowing (s : VoiceRuntimeState) : Type 0 where
    pub target :
        is_empty s.subscribed_chat_channel_id ≡ false
        → s.subscribed_chat_channel_id ≡ s.active_chat_channel_id
    pub live : s.live_chat_events ≡ not (is_empty s.subscribed_chat_channel_id)

  -- Nothing is followed, and there is no message.
  abbrev pub cleared : VoiceRuntimeState → VoiceRuntimeState
  cleared s = record s {
    subscribed_chat_channel_id = [];
    live_chat_events = false;
    active_chat_channel_id = [];
    voice = record s.voice { chat_messages = [] };
  }

  pub clear_chat_state-cleared :
      (runtime : VoiceRuntimeState) (ipc : Ipc)
      → ((clear_chat_state (runtime, ipc)).0 ≡ cleared runtime)
        × ((clear_chat_state (runtime, ipc)).2 ≡ false → runtime.voice.chat_messages ≡ [])
  unfolding clear_chat_state unsubscribe_chat_events
  clear_chat_state-cleared runtime ipc = (
    if_rule
        (λ (out : VoiceRuntimeState × Ipc).
          record out.0 {
            active_chat_channel_id = [];
            voice = record out.0.voice { chat_messages = [] };
          }
          ≡ cleared runtime)
        (not (is_empty runtime.subscribed_chat_channel_id)) _ _ (λ _. refl)
        (λ e. ground (arith, is_empty→nil runtime.subscribed_chat_channel_id (ground (arith, e)))),
    λ e. is_empty→nil runtime.voice.chat_messages (ground (arith, e)),
  )

  -- What `refresh_chat_state` makes of the state `runtime`.
  pub record Refreshed (runtime : VoiceRuntimeState) (wanted : Bool)
      (out : VoiceRuntimeState × Ipc × Bool) : Type 0 where
    pub following : IsFollowing out.0
    pub active : out.0.active_chat_channel_id ≡ (if wanted then runtime.voice.channel_id else [])
    pub messages : out.0.voice.chat_messages ≡ (
        if wanted && str_eq runtime.active_chat_channel_id runtime.voice.channel_id
        then runtime.voice.chat_messages
        else [])
    pub voice :
        record out.0.voice { chat_messages = [] } ≡ record runtime.voice { chat_messages = [] }
    pub reported : out.2 ≡ false → out.0.voice.chat_messages ≡ runtime.voice.chat_messages

  -- Where no call on messages changes the granted scopes, a second `refresh_chat_state` changes nothing, neither the state
  -- nor the connection, and says so.
  pub refresh_chat_state_idem :
      ((scope channel : Bytes) (i : Ipc)
        → I.has_scope scope (I.unsubscribe_channel_messages channel i) ≡ I.has_scope scope i)
      → ((scope channel : Bytes) (i : Ipc)
          → I.has_scope scope (I.subscribe_channel_messages channel i).1 ≡ I.has_scope scope i)
      → (runtime : VoiceRuntimeState) (ipc : Ipc) (want_chat : Bool)
      → let (s, i, changed) = refresh_chat_state (runtime, ipc) want_chat in
        refresh_chat_state (s, i) want_chat ≡ (s, i, false)
  unfolding refresh_chat_state clear_chat_state unsubscribe_chat_events
  refresh_chat_state_idem kept kept' runtime ipc want_chat =
      let scope = lit "messages.read" in
      ground (
        arith,
        kept scope runtime.subscribed_chat_channel_id ipc,
        kept' scope runtime.voice.channel_id ipc,
        kept' scope runtime.voice.channel_id
            (I.unsubscribe_channel_messages runtime.subscribed_chat_channel_id ipc),
        str_eq_refl runtime.voice.channel_id,
        is_empty→nil runtime.subscribed_chat_channel_id,
      )
