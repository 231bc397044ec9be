-- ===== src/Daemon/Steps.antt =====
-- The steps of a round of the event loop of src/daemon/main.cpp.
use sigaw.Prelude.{
  ℕ, ◌/◌, ◌≡◌, refl, ◌∙◌, ap, subst, Bool, true, false, not, ◌&&◌, ◌||◌, List, [], ◌∷◌, Option,
  none, some, arith, lit, str_eq, is_empty, if_rule,
}
use sigaw.Protocol.{sigaw_max_chat_messages}
use sigaw.Json.Interface.{JsonLib}
use sigaw.Json.Utils.{string_or}
use sigaw.Voice.State.{VoiceState, VoiceRuntimeState, default_sync_config}
use sigaw.Voice.Ipc.{IpcLib, IpcLaws, ChatLaws}
use sigaw.Voice.Sync.Defs.{sync_pending_channel}
use sigaw.Voice.Sync.Invariant.{IsTracked, sync_pending_channel-IsTracked}
use sigaw.Voice.Events.Defs.{process_voice_event}
use sigaw.Voice.Events.Invariant.{process_voice_event-IsTracked}
use sigaw.Chat.Defs.{prune_expired_messages}
use sigaw.Chat.Events.{process_chat_event-ChatOnly}
use sigaw.Chat.Follow.{refresh_chat_state}
use sigaw.Config.Types.{FloatLib}
use sigaw.Daemon.Displayed.{
  displayed, Reported, process_voice_event-Reported, sync_pending_channel-Reported,
}
use sigaw.Daemon.Chat.{
  rest_of, IsTracked-rest, ChatStep, refresh_chat_state-ChatStep, prune_expired_messages-Reported,
}
use sigaw.Daemon.Loop.{
  Polled, nothing_pending, closed, event, Inputs, on_chat_event, is_chat_event, on_event, drain,
  settle,
}

or_assoc : (a b c d : Bool) → (((a || b) || c) || d) ≡ (a || b || c || d)
or_assoc a b c d = ground arith

module _ (I : IpcLib) (L : IpcLaws I) where
  -- A state that is tracked, and in which what is displayed has not changed since `shown` if no change is
  -- noted.
  pub record Sound (shown : VoiceState) (now : VoiceRuntimeState × I.Ipc × Bool) : Type 0 where
    pub tracked : IsTracked I L now.0 now.1
    pub reported : now.2 ≡ false → displayed now.0.voice ≡ displayed shown

  -- A step that keeps the state tracked and reports its change.
  Sound-step :
      (shown : VoiceState) (s t : VoiceRuntimeState) (i j : I.Ipc) (before changed : Bool)
      → Sound shown (s, i, before)
      → IsTracked I L t j
      → Reported s.voice t.voice changed
      → Sound shown (t, j, before || changed)
  Sound-step shown s t i j before changed h tracked reported = record {
    tracked = tracked;
    reported = λ e. reported (ground (arith, e)) ∙ h.reported (ground (arith, e));
  }

  pub Sound-chat :
      (shown : VoiceState) (s t : VoiceRuntimeState) (i j : I.Ipc) (before changed : Bool)
      → Sound shown (s, i, before)
      → ChatStep I L s i t j changed
      → Sound shown (t, j, before || changed)
  Sound-chat shown s t i j before changed h step =
      Sound-step shown s t i j before changed h
        (IsTracked-rest I L s t i j step.rest step.subscriptions h.tracked)
        (λ e. ap displayed (step.reported e))

  module _ (J : JsonLib) (FL : FloatLib) (poll_event : I.Ipc → Polled J.Json × I.Ipc) where
    on_chat_event-ChatStep :
        (message : J.Json) (now : ℕ) (s : VoiceRuntimeState) (i : I.Ipc)
        → let (t, changed) = on_chat_event J I FL poll_event message now s in
          ChatStep I L s i t i changed
    unfolding on_chat_event
    on_chat_event-ChatStep message now s i =
        let only =
          process_chat_event-ChatOnly J message s.voice (now / 1000000) sigaw_max_chat_messages in
        if_rule (λ (o : VoiceRuntimeState × Bool). ChatStep I L s i o.0 i o.1)
          (not (is_empty s.voice.channel_id) && str_eq s.active_chat_channel_id s.voice.channel_id)
          _ _
          (λ _. record {
            rest = ap (λ (v : VoiceState). rest_of (record s { voice = v })) only.frame;
            subscriptions = refl;
            reported = only.reported;
          })
          (λ _. record { rest = refl; subscriptions = refl; reported = λ _. refl })

    on_event-Sound :
        (shown : VoiceState) (message : J.Json) (now : ℕ) (s : VoiceRuntimeState) (i : I.Ipc)
        (changed : Bool)
        → Sound shown (s, i, changed)
        → Sound shown (on_event J I FL poll_event message now (s, i, changed))
    unfolding on_event
    on_event-Sound shown message now s i changed h =
        let (r, c) = on_chat_event J I FL poll_event message now s in
        let (t, j, update) = process_voice_event J I message (s, i) now default_sync_config in
        if_rule (Sound shown) (is_chat_event J I FL poll_event (string_or J message (lit "evt") []))
          _ _ (λ _. Sound-chat shown s r i i changed c h (on_chat_event-ChatStep message now s i))
          (λ _.
            Sound-step shown s t i j changed update.state_changed h
              (process_voice_event-IsTracked J I L message s i now default_sync_config h.tracked)
              (process_voice_event-Reported I J message s i now default_sync_config))

    -- What the loop over the messages leaves.
    abbrev pub Drained : VoiceState → Option (Bool × (VoiceRuntimeState × I.Ipc × Bool)) → Type 0
    Drained shown none = Unit
    Drained shown (some (lost, now)) = Sound shown now

    pub drain-Drained :
        (shown : VoiceState) (ts : List ℕ) (s : VoiceRuntimeState) (i : I.Ipc) (changed : Bool)
        → ((k : I.Ipc) → L.subscriptions (poll_event k).1 ≡ L.subscriptions k)
        → Sound shown (s, i, changed)
        → Drained shown (drain J I FL poll_event ts (s, i, changed))
    unfolding drain
    drain-Drained shown [] s i changed polls h = tt
    drain-Drained shown (t ∷ ts) s i changed polls h =
        let (polled, j) = poll_event i in
        let next : Sound shown (s, j, changed) = record {
          tracked = IsTracked-rest I L s s i j refl (polls i) h.tracked;
          reported = h.reported;
        } in
        elim polled
          as (λ (p : Polled J.Json).
            Drained shown (elim p as (λ _. Option (Bool × (VoiceRuntimeState × I.Ipc × Bool))) [
              | nothing_pending ↦ some (false, (s, j, changed))
              | closed ↦ some (true, (s, j, changed))
              | event message ↦
                  drain J I FL poll_event ts (on_event J I FL poll_event message t (s, j, changed))
            ])) [
              | nothing_pending ↦ next
              | closed ↦ next
              | event message ↦
                  let (u, k, more) = on_event J I FL poll_event message t (s, j, changed) in
                  drain-Drained shown ts u k more polls
                    (on_event-Sound shown message t s j changed next)
            ]

    pub settle-Sound :
        (shown : VoiceState) (inputs : Inputs) (want_chat : Bool) (s : VoiceRuntimeState)
        (i : I.Ipc) (changed : Bool)
        → ChatLaws I L
        → Sound shown (s, i, changed)
        → Sound shown (settle J I FL poll_event inputs want_chat (s, i, changed))
    unfolding settle
    settle-Sound shown inputs want_chat s i changed C h =
        let (r, j, update) = sync_pending_channel I (s, i) inputs.sync_time default_sync_config in
        let (t, k, chat_changed) = refresh_chat_state I (r, j) want_chat in
        let (voice, pruned) = prune_expired_messages t.voice (inputs.prune_time / 1000000) in
        let synced : Sound shown (r, j, changed || update.state_changed) =
          Sound-step shown s r i j changed update.state_changed h
            (sync_pending_channel-IsTracked I L s i inputs.sync_time default_sync_config h.tracked
              (omega arith))
            (sync_pending_channel-Reported I L s i inputs.sync_time default_sync_config
              h.tracked) in
        let followed : Sound shown (t, k, (changed || update.state_changed) || chat_changed) =
          Sound-chat shown r t j k (changed || update.state_changed) chat_changed synced
            (refresh_chat_state-ChatStep I L C r j want_chat) in
        let (same, quiet) = prune_expired_messages-Reported t.voice (inputs.prune_time / 1000000) in
        let pruning : ChatStep I L t k (record t { voice = voice }) k pruned = record {
          rest = ap (λ (v : VoiceState). (t.subscribed_channel_id, t.pending_sync, v)) same;
          subscriptions = refl;
          reported = quiet;
        } in
        subst (λ b. Sound shown (record t { voice = voice }, k, b))
          (or_assoc changed update.state_changed chat_changed pruned)
          (Sound-chat shown t (record t { voice = voice }) k k
            ((changed || update.state_changed) || chat_changed) pruned followed pruning)
