-- ===== src/Daemon/Chat.antt =====
-- What the chat does to the rest of the runtime state in src/daemon/main.cpp: nothing, and it reports what it
-- does to the messages.
use sigaw.Prelude.{
  ℕ, ◌≡◌, refl, sym, ◌∙◌, ap, Bool, false, not, ◌||◌, [], arith, leb, Bytes, lit, str_eq, is_empty,
  if_rule,
}
use sigaw.Voice.State.{VoiceState, PendingVoiceSync, VoiceRuntimeState}
use sigaw.Voice.Ipc.{IpcLib, IpcLaws, ChatLaws}
use sigaw.Voice.Sync.Invariant.{IsTracked}
use sigaw.Chat.Defs.{prune_expired_messages, total_lifetime_ms, age}
use sigaw.Chat.Messages.{keep_if-all}
use sigaw.Chat.Follow.{
  unsubscribe_chat_events, clear_chat_state, refresh_chat_state, clear_chat_state-cleared,
}

-- All but the chat.
abbrev pub Rest : Type 0
Rest = Bytes × PendingVoiceSync × VoiceState

abbrev pub rest_of : VoiceRuntimeState → Rest
rest_of s = (s.subscribed_channel_id, s.pending_sync, record s.voice { chat_messages = [] })

pub IsTracked-rest :
    (I : IpcLib) (L : IpcLaws I) (s t : VoiceRuntimeState) (i j : I.Ipc)
    → rest_of t ≡ rest_of s
    → L.subscriptions j ≡ L.subscriptions i
    → IsTracked I L s i
    → IsTracked I L t j
IsTracked-rest I L s t i j e same h =
    let channel : t.subscribed_channel_id ≡ s.subscribed_channel_id = ap (λ r. r.0) e in
    let sync : t.pending_sync ≡ s.pending_sync = ap (λ r. r.1) e in
    let voice : t.voice.channel_id ≡ s.voice.channel_id = ap (λ (r : Rest). r.2.channel_id) e in
    record {
      one_subscription = rw (channel, same) h.one_subscription;
      sync_target = rw (channel, sync, voice) h.sync_target;
      voice_target = rw (channel, voice) h.voice_target;
    }

-- A step of the chat.
pub record ChatStep (I : IpcLib) (L : IpcLaws I) (s : VoiceRuntimeState) (i : I.Ipc)
    (t : VoiceRuntimeState) (j : I.Ipc) (changed : Bool) : Type 0 where
  pub rest : rest_of t ≡ rest_of s
  pub subscriptions : L.subscriptions j ≡ L.subscriptions i
  pub reported : changed ≡ false → t.voice ≡ s.voice

module _ (I : IpcLib) (L : IpcLaws I) (C : ChatLaws I L) where
  unsubscribe_chat_events-subscriptions :
      (s : VoiceRuntimeState) (i : I.Ipc)
      → L.subscriptions (unsubscribe_chat_events I (s, i)).1 ≡ L.subscriptions i
  unfolding unsubscribe_chat_events
  unsubscribe_chat_events-subscriptions s i =
      if_rule (λ (o : VoiceRuntimeState × I.Ipc). L.subscriptions o.1 ≡ L.subscriptions i)
        (not (is_empty s.subscribed_chat_channel_id)) _ _
        (λ _. C.unfollowed s.subscribed_chat_channel_id i) (λ _. refl)

  pub clear_chat_state-ChatStep :
      (s : VoiceRuntimeState) (i : I.Ipc)
      → let (t, j, changed) = clear_chat_state I (s, i) in ChatStep I L s i t j changed
  unfolding clear_chat_state
  clear_chat_state-ChatStep s i =
      let (e, none) = clear_chat_state-cleared I s i in
      record {
        rest = ap rest_of e;
        subscriptions = unsubscribe_chat_events-subscriptions s i;
        reported = λ k. ap (λ (t : VoiceRuntimeState). t.voice) e ∙ λ x. record s.voice {
          chat_messages = sym (none k) x;
        };
      }

  -- A subscription to the messages, behind a step.
  subscribed-ChatStep :
      (s t u : VoiceRuntimeState) (i j : I.Ipc) (changed : Bool) (c : Bytes)
      → ChatStep I L s i t j changed
      → rest_of u ≡ rest_of t
      → u.voice ≡ t.voice
      → ChatStep I L s i u (I.subscribe_channel_messages c j).1 changed
  subscribed-ChatStep s t u i j changed c h e v = record {
    rest = e ∙ h.rest;
    subscriptions = C.followed c j ∙ h.subscriptions;
    reported = λ k. v ∙ h.reported k;
  }

  pub refresh_chat_state-ChatStep :
      (s : VoiceRuntimeState) (i : I.Ipc) (want_chat : Bool)
      → let (t, j, changed) = refresh_chat_state I (s, i) want_chat in ChatStep I L s i t j changed
  unfolding refresh_chat_state
  refresh_chat_state-ChatStep s i want_chat =
      let P = λ (o : VoiceRuntimeState × I.Ipc × Bool). ChatStep I L s i o.0 o.1 o.2 in
      let (t, j, had_chat) = clear_chat_state I (s, i) in
      let step = clear_chat_state-ChatStep s i in
      let (subscribed, k) = I.subscribe_channel_messages s.voice.channel_id j in
      if_rule P
        (not want_chat || not (I.has_scope (lit "messages.read") i) || is_empty s.voice.channel_id)
        _ _ (λ _. step)
        (λ _.
          if_rule P (str_eq s.active_chat_channel_id s.voice.channel_id) _ _
            (λ _. record { rest = refl; subscriptions = refl; reported = λ _. refl })
            (λ _.
              if_rule P (not subscribed) _ _
                (λ _. subscribed-ChatStep s t _ i j had_chat s.voice.channel_id step refl refl)
                (λ _. subscribed-ChatStep s t _ i j had_chat s.voice.channel_id step refl refl)))

-- The pruning.
pub prune_expired_messages-Reported :
    (voice : VoiceState) (now : ℕ)
    → let (left, changed) = prune_expired_messages voice now in
      (record left { chat_messages = [] } ≡ record voice { chat_messages = [] })
      × (changed ≡ false → left ≡ voice)
unfolding prune_expired_messages
prune_expired_messages-Reported voice now = (
  refl,
  λ e. λ i. record voice {
    chat_messages =
        keep_if-all (λ m. not (leb total_lifetime_ms (age m now))) voice.chat_messages
          (ground (arith, e)) i;
  },
)
