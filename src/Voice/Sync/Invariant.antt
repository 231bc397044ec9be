-- ===== src/Voice/Sync/Invariant.antt =====
-- What the pending sync keeps true of the daemon's subscriptions.
use sigaw.Prelude.{
  ℕ, ◌≤◌, max, ◌≡◌, refl, sym, ◌∙◌, Bool, false, not, List, [], ◌∷◌, ◌⊎◌, inl, inr, arith,
  if◌then◌else◌, Bytes, str_eq, str_eq_iff, str_eq_refl, is_empty, keep_if, Bool-cases,
  is_empty→nil,
}
use sigaw.Voice.State.{
  VoiceState, DiscordUserIdentity, VoiceSyncConfig, no_voice, VoiceRuntimeState,
}
use sigaw.Voice.Ipc.{IpcLib, IpcLaws}
use sigaw.Voice.Sync.Defs.{
  add_local_user_fallback, drop_subscription, move_subscription, schedule_channel_sync, adopt,
  finish_sync, resync, sync_now, sync_pending_channel,
}

-- The subscriptions that the field `subscribed_channel_id` stands for.
abbrev pub owned : Bytes → List Bytes
owned c = if is_empty c then [] else c ∷ []

-- The recorded channel is the only one that was subscribed and not unsubscribed; a pending sync and the
-- published voice state are of that channel, if of any, and never both at once.
pub record IsTracked (I : IpcLib) (L : IpcLaws I) (state : VoiceRuntimeState) (ipc : I.Ipc)
    : Type 0 where
  pub one_subscription : L.subscriptions ipc ≡ owned state.subscribed_channel_id
  pub sync_target :
      (state.pending_sync.channel_id ≡ [])
      ⊎ ((state.pending_sync.channel_id ≡ state.subscribed_channel_id)
          × (state.voice.channel_id ≡ []))
  pub voice_target :
      (state.voice.channel_id ≡ []) ⊎ (state.voice.channel_id ≡ state.subscribed_channel_id)

keep_if-owned : (c : Bytes) → keep_if (λ d. not (str_eq d c)) (owned c) ≡ []
unfolding keep_if
keep_if-owned [] = refl
keep_if-owned (x ∷ c) = rw (str_eq_refl (x ∷ c))

pub channel_id-fallback :
    (v : VoiceState) (self : DiscordUserIdentity)
    → (add_local_user_fallback v self).channel_id ≡ v.channel_id
unfolding add_local_user_fallback
channel_id-fallback v self = ground arith

module _ (I : IpcLib) (L : IpcLaws I) where
  move_subscription-one :
      (state : VoiceRuntimeState) (ipc : I.Ipc) (x : ℕ) (cs : Bytes)
      → L.subscriptions ipc ≡ owned state.subscribed_channel_id
      → let (s, i) = move_subscription I (state, ipc) (x ∷ cs) in
        (s.subscribed_channel_id ≡ x ∷ cs) × (L.subscriptions i ≡ (x ∷ cs) ∷ [])
  unfolding move_subscription drop_subscription
  move_subscription-one state ipc x cs e = ground (
    arith,
    str_eq_iff state.subscribed_channel_id (x ∷ cs),
    str_eq_iff [] (x ∷ cs),
    L.subscribed (x ∷ cs) ipc,
    L.subscribed (x ∷ cs) (I.unsubscribe_channel state.subscribed_channel_id ipc),
    L.unsubscribed state.subscribed_channel_id ipc,
    keep_if-owned state.subscribed_channel_id,
  )

  pub schedule_channel_sync-IsTracked :
      (state : VoiceRuntimeState) (ipc : I.Ipc) (c : Bytes) (now : ℕ) (config : VoiceSyncConfig)
      → (announce : Bool) → IsTracked I L state ipc
      → let (s, i) = schedule_channel_sync I (state, ipc) c now config announce in IsTracked I L s i
  unfolding schedule_channel_sync
  schedule_channel_sync-IsTracked state ipc [] now config announce t = t
  schedule_channel_sync-IsTracked state ipc (x ∷ cs) now config announce t =
      let (e, f) = move_subscription-one state ipc x cs t.one_subscription in
      record { one_subscription = rw e f; sync_target = inr (sym e, refl); voice_target = inl refl }

  finish_sync-IsTracked :
      (state : VoiceRuntimeState) (ipc : I.Ipc) (selected : VoiceState) (now : ℕ)
      → (config : VoiceSyncConfig) → IsTracked I L state ipc
      → state.pending_sync.channel_id ≡ state.subscribed_channel_id
      → (selected.channel_id ≡ state.pending_sync.channel_id)
        ⊎ (2 ≤ state.pending_sync.attempts_remaining)
      → IsTracked I L (finish_sync I state ipc selected now config).0 ipc
  unfolding finish_sync adopt
  finish_sync-IsTracked state ipc selected now config t target same = ground (
    arith,
    str_eq_iff selected.channel_id state.pending_sync.channel_id,
    channel_id-fallback selected (I.local_user ipc),
  )

  queried-IsTracked :
      (state : VoiceRuntimeState) (ipc : I.Ipc)
      → IsTracked I L state ipc
      → IsTracked I L state (I.get_selected_voice_channel ipc).1
  queried-IsTracked state ipc t = record {
    one_subscription = L.queried ipc ∙ t.one_subscription;
    sync_target = t.sync_target;
    voice_target = t.voice_target;
  }

  resync-IsTracked :
      (state : VoiceRuntimeState) (ipc : I.Ipc) (now : ℕ) (config : VoiceSyncConfig)
      → IsTracked I L state ipc
      → state.pending_sync.channel_id ≡ state.subscribed_channel_id
      → 2 ≤ state.pending_sync.attempts_remaining
      → let (s, i, r) = resync I (state, ipc) now config in IsTracked I L s i
  unfolding resync
  resync-IsTracked state ipc now config t target left =
      let q = I.get_selected_voice_channel ipc in
      let kept = queried-IsTracked state ipc t in
      ground (arith, kept, finish_sync-IsTracked state q.1 q.0 now config kept target (inr left))

  pub drop_subscription-IsTracked :
      (state : VoiceRuntimeState) (ipc : I.Ipc)
      → IsTracked I L state ipc
      → let (s, i) = drop_subscription I (state, ipc) in
        (s.subscribed_channel_id ≡ [])
        × (L.subscriptions i ≡ [])
        × (s.voice ≡ state.voice)
        × (s.pending_sync ≡ state.pending_sync)
  unfolding drop_subscription
  drop_subscription-IsTracked state ipc t = ground (
    arith,
    L.unsubscribed state.subscribed_channel_id ipc,
    keep_if-owned state.subscribed_channel_id,
    is_empty→nil state.subscribed_channel_id,
  )

  schedule_channel_sync-target :
      (state : VoiceRuntimeState) (ipc : I.Ipc) (c : Bytes) (now : ℕ) (config : VoiceSyncConfig)
      → (announce : Bool) → L.subscriptions ipc ≡ owned state.subscribed_channel_id
      → is_empty c ≡ false
      → let (s, i) = schedule_channel_sync I (state, ipc) c now config announce in
        (s.pending_sync.channel_id ≡ s.subscribed_channel_id)
        × (s.pending_sync.attempts_remaining ≡ max 1 config.max_attempts)
        × (s.voice ≡ no_voice)
  unfolding schedule_channel_sync
  schedule_channel_sync-target state ipc [] now config announce t h = absurd (cc)
  schedule_channel_sync-target state ipc (x ∷ cs) now config announce t h =
      (sym (move_subscription-one state ipc x cs t).0, refl, refl)

  sync_now-IsTracked :
      (state : VoiceRuntimeState) (ipc : I.Ipc) (now : ℕ) (config : VoiceSyncConfig)
      → IsTracked I L state ipc
      → is_empty state.pending_sync.channel_id ≡ false
      → 2 ≤ config.max_attempts
      → let (s, i, r) = sync_now I (state, ipc) now config in IsTracked I L s i
  unfolding sync_now
  sync_now-IsTracked state ipc now config t waits many =
      let q = I.get_selected_voice_channel ipc in
      let kept = queried-IsTracked state ipc t in
      let announce = state.pending_sync.announce_join in
      let c = schedule_channel_sync I (state, q.1) q.0.channel_id now config announce in
      elim (Bool-cases (is_empty q.0.channel_id)) [
        | inl gone ↦ ground (arith, drop_subscription-IsTracked state q.1 kept)
        | inr here ↦ ground (
          arith,
          kept,
          str_eq_iff q.0.channel_id state.pending_sync.channel_id,
          schedule_channel_sync-target state q.1 q.0.channel_id now config announce
              kept.one_subscription here,
          resync-IsTracked c.0 c.1 now config
              (schedule_channel_sync-IsTracked state q.1 q.0.channel_id now config announce kept),
          finish_sync-IsTracked state q.1 q.0 now config kept,
        )
      ]

  -- Under a configuration of at least two attempts the sync keeps a state tracked.
  pub sync_pending_channel-IsTracked :
      (state : VoiceRuntimeState) (ipc : I.Ipc) (now : ℕ) (config : VoiceSyncConfig)
      → IsTracked I L state ipc
      → 2 ≤ config.max_attempts
      → let (s, i, r) = sync_pending_channel I (state, ipc) now config in IsTracked I L s i
  unfolding sync_pending_channel
  sync_pending_channel-IsTracked state ipc now config t many =
      ground (arith, sync_now-IsTracked state ipc now config t, many)
