-- ===== src/Voice/Events/Invariant.antt =====
-- What one Discord voice event keeps true of the daemon's state.
use sigaw.Prelude.{
  ℕ, ◌≡◌, refl, Bool, true, false, not, [], none, arith, ◌==◌, ◌&&◌, ◌||◌, Distinct, find_if,
  Distinct-concat, find_if-none-Fresh, str_eq, is_empty, lit, Bytes, if_rule, Option_rule,
}
use mathlib.Core.Bool.{xor}
use sigaw.Json.Interface.{JsonLib}
use sigaw.Json.Utils.{string_or, u64_or, object_or_null}
use sigaw.Voice.State.{
  VoiceUser, VoiceSyncConfig, VoiceRuntimeState, VoiceUpdateResult, new_user, no_update,
}
use sigaw.Voice.Ipc.{IpcLib, IpcLaws}
use sigaw.Voice.Sync.Invariant.{
  IsTracked, schedule_channel_sync-IsTracked, drop_subscription-IsTracked,
}
use sigaw.Voice.Events.Defs.{
  update_first, erase_first, has_id, with_users, refreshed, join, on_state_create, on_state_update,
  on_state_delete, on_speaking, on_user_event, leave_channel, on_channel_select,
  process_voice_event,
}
use sigaw.Voice.Events.Users.{user_id, Distinct-update_first, Distinct-erase_first, refreshed-id}

-- A user event changes the user list at most, keeps it free of repeated users, and reports every
-- change.
pub record UsersOnly (state : VoiceRuntimeState) (out : VoiceRuntimeState × VoiceUpdateResult)
    : Type 0 where
  pub frame : out.0 ≡ with_users state out.0.voice.users
  pub distinct : Distinct user_id state.voice.users → Distinct user_id out.0.voice.users
  pub reported : out.1.state_changed ≡ false → out.0 ≡ state
  pub stays : (out.1.left_channel ≡ false) × (out.1.joined_channel ≡ false)

module _ (J : JsonLib) where
  open J use {Json}

  join-UsersOnly :
      (state : VoiceRuntimeState) (uid : ℕ) (d j : Json)
      → find_if (has_id uid) state.voice.users ≡ none
      → UsersOnly state (join J state uid d j)
  unfolding join
  join-UsersOnly state uid d j missing =
      let named = (refreshed-id J (new_user uid) d j).0 in
      record {
        frame = refl;
        distinct = λ h.
            Distinct-concat user_id state.voice.users (refreshed J (new_user uid) d j) h
              (rw named (find_if-none-Fresh user_id uid state.voice.users missing));
        reported = λ e. absurd (cc);
        stays = (refl, refl);
      }

  same-UsersOnly : (state : VoiceRuntimeState) → UsersOnly state (state, no_update)
  same-UsersOnly state = record {
    frame = refl;
    distinct = λ h. h;
    reported = λ _. refl;
    stays = (refl, refl);
  }

  update_first-UsersOnly :
      (state : VoiceRuntimeState) (uid : ℕ) (f : VoiceUser → VoiceUser)
      → ((u : VoiceUser) → (f u).id ≡ u.id)
      → UsersOnly state (
        with_users state (update_first (has_id uid) f state.voice.users),
        record no_update { state_changed = true },
      )
  update_first-UsersOnly state uid f same = record {
    frame = refl;
    distinct = Distinct-update_first (has_id uid) f same state.voice.users;
    reported = λ e. absurd (cc);
    stays = (refl, refl);
  }

  on_state_create-UsersOnly :
      (state : VoiceRuntimeState) (d : Json) → UsersOnly state (on_state_create J state d)
  unfolding on_state_create
  on_state_create-UsersOnly state d =
      Option_rule (UsersOnly state) (object_or_null J d (lit "user")) _ _
        (λ _. same-UsersOnly state)
        λ user _.
          if_rule (UsersOnly state) (u64_or J user (lit "id") 0 == 0) _ _
            (λ _. same-UsersOnly state)
            λ _.
              Option_rule (UsersOnly state)
                (find_if (has_id (u64_or J user (lit "id") 0)) state.voice.users) _ _
                (join-UsersOnly state (u64_or J user (lit "id") 0) d user)
                λ _ _. same-UsersOnly state

  on_state_update-UsersOnly :
      (state : VoiceRuntimeState) (d : Json) → UsersOnly state (on_state_update J state d)
  unfolding on_state_update
  on_state_update-UsersOnly state d =
      Option_rule (UsersOnly state) (object_or_null J d (lit "user")) _ _
        (λ _. same-UsersOnly state)
        λ user _.
          if_rule (UsersOnly state) (u64_or J user (lit "id") 0 == 0) _ _
            (λ _. same-UsersOnly state)
            λ _.
              Option_rule (UsersOnly state)
                (find_if (has_id (u64_or J user (lit "id") 0)) state.voice.users) _ _
                (join-UsersOnly state (u64_or J user (lit "id") 0) d user)
                λ _ _.
                  update_first-UsersOnly state _ (λ u. refreshed J u d user)
                    λ u. (refreshed-id J u d user).0

  erase_first-UsersOnly :
      (state : VoiceRuntimeState) (uid : ℕ) (name : Bytes)
      → UsersOnly state (
        with_users state (erase_first (has_id uid) state.voice.users),
        record no_update { user_left = name; state_changed = true },
      )
  erase_first-UsersOnly state uid name = record {
    frame = refl;
    distinct = Distinct-erase_first (has_id uid) state.voice.users;
    reported = λ e. absurd (cc);
    stays = (refl, refl);
  }

  on_state_delete-UsersOnly :
      (state : VoiceRuntimeState) (d : Json) → UsersOnly state (on_state_delete J state d)
  unfolding on_state_delete
  on_state_delete-UsersOnly state d =
      Option_rule (UsersOnly state) (object_or_null J d (lit "user")) _ _
        (λ _. same-UsersOnly state)
        λ user _.
          Option_rule (UsersOnly state)
            (find_if (has_id (u64_or J user (lit "id") 0)) state.voice.users) _ _
            (λ _. same-UsersOnly state) λ gone _. erase_first-UsersOnly state _ gone.username

  on_speaking-UsersOnly :
      (state : VoiceRuntimeState) (d : Json) (b : Bool) → UsersOnly state (on_speaking J state d b)
  unfolding on_speaking
  on_speaking-UsersOnly state d b =
      if_rule (UsersOnly state) (u64_or J d (lit "user_id") 0 == 0) _ _ (λ _. same-UsersOnly state)
        λ _.
          Option_rule (UsersOnly state)
            (find_if (has_id (u64_or J d (lit "user_id") 0)) state.voice.users) _ _
            (λ _. same-UsersOnly state)
            λ u _.
              if_rule (UsersOnly state) (xor u.speaking b) _ _
                (λ _. update_first-UsersOnly state _ (λ v. record v { speaking = b }) λ v. refl)
                λ _. same-UsersOnly state

  -- An event other than VOICE_CHANNEL_SELECT, whatever it holds, changes the list of users at
  -- most: the channel, the chat, the subscriptions and the pending sync stay. The list keeps its
  -- users distinct, the event never reports that a channel was joined or left, and one that
  -- reports no change has changed nothing.
  pub on_user_event-UsersOnly :
      (state : VoiceRuntimeState) (evt : Bytes) (event : Json)
      → UsersOnly state (on_user_event J state evt event)
  unfolding on_user_event
  on_user_event-UsersOnly state evt event =
      let P = UsersOnly state in
      let d = J.at event (lit "data") in
      if_rule P (is_empty state.voice.channel_id) _ _ (λ _. same-UsersOnly state)
        λ _.
          if_rule P (str_eq evt (lit "VOICE_STATE_CREATE")) _ _
            (λ _. on_state_create-UsersOnly state d)
            λ _.
              if_rule P (str_eq evt (lit "VOICE_STATE_UPDATE")) _ _
                (λ _. on_state_update-UsersOnly state d)
                λ _.
                  if_rule P (str_eq evt (lit "VOICE_STATE_DELETE")) _ _
                    (λ _. on_state_delete-UsersOnly state d)
                    λ _.
                      if_rule P
                        (str_eq evt (lit "SPEAKING_START") || str_eq evt (lit "SPEAKING_STOP")) _ _
                        (λ _. on_speaking-UsersOnly state d (str_eq evt (lit "SPEAKING_START")))
                        λ _. same-UsersOnly state

  module _ (I : IpcLib) (L : IpcLaws I) where
    -- A predicate of what a whole event leaves.
    abbrev Tracked : VoiceRuntimeState × I.Ipc × VoiceUpdateResult → Type 0
    Tracked out = IsTracked I L out.0 out.1

    leave_channel-IsTracked :
        (state : VoiceRuntimeState) (ipc : I.Ipc)
        → IsTracked I L state ipc
        → Tracked (leave_channel J I (state, ipc))
    unfolding leave_channel
    leave_channel-IsTracked state ipc t =
        ground (arith, drop_subscription-IsTracked I L state ipc t)

    on_channel_select-IsTracked :
        (state : VoiceRuntimeState) (ipc : I.Ipc) (d : Json) (now : ℕ) (config : VoiceSyncConfig)
        → IsTracked I L state ipc
        → Tracked (on_channel_select J I (state, ipc) d now config)
    unfolding on_channel_select
    on_channel_select-IsTracked state ipc d now config t =
        let c = string_or J d (lit "channel_id") [] in
        if_rule Tracked (J.is_null d || is_empty c) _ _ (λ _. leave_channel-IsTracked state ipc t)
          λ _.
            if_rule Tracked
              (str_eq c state.subscribed_channel_id
                && is_empty state.pending_sync.channel_id
                && str_eq state.voice.channel_id c
                && not (is_empty state.voice.users))
              _ _ (λ _. t) λ _. schedule_channel_sync-IsTracked I L state ipc c now config true t

    user_event-IsTracked :
        (state : VoiceRuntimeState) (ipc : I.Ipc) (out : VoiceRuntimeState × VoiceUpdateResult)
        → UsersOnly state out
        → IsTracked I L state ipc
        → IsTracked I L out.0 ipc
    user_event-IsTracked state ipc out u t = rw (u.frame) (record {
      one_subscription = t.one_subscription;
      sync_target = t.sync_target;
      voice_target = t.voice_target;
    })

    -- Every Discord event keeps a state tracked.
    pub process_voice_event-IsTracked :
        (event : Json) (state : VoiceRuntimeState) (ipc : I.Ipc) (now : ℕ)
        → (config : VoiceSyncConfig) → IsTracked I L state ipc
        → let (s, i, r) = process_voice_event J I event (state, ipc) now config in IsTracked I L s i
    unfolding process_voice_event
    process_voice_event-IsTracked event state ipc now config t =
        if_rule Tracked (not (str_eq (string_or J event (lit "cmd") []) (lit "DISPATCH"))) _ _
          (λ _. t)
          λ _.
            if_rule Tracked (str_eq (string_or J event (lit "evt") []) (lit "VOICE_CHANNEL_SELECT"))
              _ _
              (λ _. on_channel_select-IsTracked state ipc (J.at event (lit "data")) now config t)
              λ _.
                user_event-IsTracked state ipc
                  (on_user_event J state (string_or J event (lit "evt") []) event)
                  (on_user_event-UsersOnly state (string_or J event (lit "evt") []) event) t
