-- ===== src/Voice/Sync/Progress.antt =====
-- A pending sync ends: after as many due attempts as were configured, at the latest.
use sigaw.Prelude.{
  ℕ, zero, suc, ◌+◌, ◌*◌, ◌≤◌, ◌<◌, ◌≡◌, ◌≢◌, refl, sym, subst, max, Bool, false, List, [], ◌∷◌,
  ◌⊎◌, inl, inr, arith, Bytes, str_eq_iff, length,
}
use sigaw.Voice.State.{VoiceState, VoiceSyncConfig, VoiceRuntimeState, active, no_update}
use sigaw.Voice.Ipc.{IpcLib}
use sigaw.Voice.Sync.Defs.{
  adopt, schedule_channel_sync, finish_sync, sync_now, sync_pending_channel,
}
use sigaw.Voice.Sync.Invariant.{channel_id-fallback}

-- Each time comes when the attempt before it, and the interval, are over.
abbrev pub Spaced : ℕ → ℕ → List ℕ → Type 0
Spaced next interval [] = Unit
Spaced next interval (t ∷ ts) = (next ≤ t) × Spaced (t + interval) interval ts

-- The sync is over, with the voice state of the channel `c` published.
abbrev pub Settled : Bytes → VoiceRuntimeState → Type 0
Settled c state = (active state.pending_sync ≡ false) × (state.voice.channel_id ≡ c)

-- The sync of the channel `c` waits with `n` attempts left.
record Waits (c : Bytes) (n : ℕ) (next : ℕ) (state : VoiceRuntimeState) : Type 0 where
  target : state.pending_sync.channel_id ≡ c
  attempts : state.pending_sync.attempts_remaining ≡ n
  due : state.pending_sync.next_attempt ≡ next

module _ (I : IpcLib) where
  -- The daemon's loop over the sync: one call at each of the times.
  abbrev pub sync_at :
      List ℕ → VoiceSyncConfig → VoiceRuntimeState × I.Ipc → VoiceRuntimeState × I.Ipc
  sync_at [] config (state, ipc) = (state, ipc)
  sync_at (t ∷ ts) config (state, ipc) =
      let (s, i, r) = sync_pending_channel I (state, ipc) t config in sync_at ts config (s, i)

  idle_sync :
      (state : VoiceRuntimeState) (ipc : I.Ipc) (now : ℕ) (config : VoiceSyncConfig)
      → active state.pending_sync ≡ false
      → sync_pending_channel I (state, ipc) now config ≡ (state, ipc, no_update)
  unfolding sync_pending_channel
  idle_sync state ipc now config h = ground arith

  Settled-stays :
      (ts : List ℕ) (config : VoiceSyncConfig) (c : Bytes) (state : VoiceRuntimeState) (ipc : I.Ipc)
      → Settled c state
      → Settled c (sync_at ts config (state, ipc)).0
  Settled-stays [] config c state ipc h = h
  Settled-stays (t ∷ ts) config c state ipc h =
      subst (λ out. Settled c (sync_at ts config (out.0, out.1)).0)
        (sym (idle_sync state ipc t config h.0)) (Settled-stays ts config c state ipc h)

  finish_sync-progress :
      (state : VoiceRuntimeState) (ipc : I.Ipc) (selected : VoiceState) (now n : ℕ) (c : Bytes)
      → (config : VoiceSyncConfig) → state.pending_sync.channel_id ≡ c
      → state.pending_sync.attempts_remaining ≡ suc n
      → selected.channel_id ≡ c
      → let s = (finish_sync I state ipc selected now config).0 in
        Settled c s ⊎ ((0 < n) × Waits c n (now + config.retry_interval_ms * 1000000) s)
  unfolding finish_sync adopt
  finish_sync-progress state ipc selected now n c config e a s =
      ground (arith, channel_id-fallback selected (I.local_user ipc))

  sync-progress :
      (state : VoiceRuntimeState) (ipc : I.Ipc) (now n x : ℕ) (cs : Bytes)
      (config : VoiceSyncConfig)
      → Waits (x ∷ cs) (suc n) state.pending_sync.next_attempt state
      → state.pending_sync.next_attempt ≤ now
      → (I.get_selected_voice_channel ipc).0.channel_id ≡ x ∷ cs
      → let s = (sync_pending_channel I (state, ipc) now config).0 in
        Settled (x ∷ cs) s
        ⊎ ((0 < n) × Waits (x ∷ cs) n (now + config.retry_interval_ms * 1000000) s)
  unfolding sync_pending_channel sync_now
  sync-progress state ipc now n x cs config w due answer =
      let q = I.get_selected_voice_channel ipc in
      ground (
        arith,
        str_eq_iff q.0.channel_id state.pending_sync.channel_id,
        finish_sync-progress state q.1 q.0 now n (x ∷ cs) config w.target w.attempts answer,
      )

  sync_at-settles :
      (ts : List ℕ) (config : VoiceSyncConfig) (x : ℕ) (cs : Bytes) (n : ℕ)
      → (state : VoiceRuntimeState) (ipc : I.Ipc)
      → ((i : I.Ipc) → (I.get_selected_voice_channel i).0.channel_id ≡ x ∷ cs)
      → 0 < n
      → Waits (x ∷ cs) n state.pending_sync.next_attempt state
      → n ≤ length ts
      → Spaced state.pending_sync.next_attempt (config.retry_interval_ms * 1000000) ts
      → Settled (x ∷ cs) (sync_at ts config (state, ipc)).0
  sync_at-settles ts config x cs zero state ipc answers pos w many due = absurd (omega arith)
  sync_at-settles [] config x cs (suc n) state ipc answers pos w many due = absurd (omega arith)
  sync_at-settles (t ∷ ts) config x cs (suc n) state ipc answers pos w many due =
      let (s, i, r) = sync_pending_channel I (state, ipc) t config in
      elim (sync-progress state ipc t n x cs config w due.0 (answers ipc)) [
        | inl done ↦ Settled-stays ts config (x ∷ cs) s i done
        | inr (left, again) ↦
            sync_at-settles ts config x cs n s i answers left
              (record { target = again.target; attempts = again.attempts; due = refl })
              (omega arith) (rw (again.due) (due.1))
      ]

  -- While the connection answers every query with one and the same channel, a sync that was
  -- scheduled for it ends after `max(1, max_attempts)` calls at times that keep the retry interval:
  -- then no sync is pending, and the published voice state is of that channel, whether or not its
  -- users were ever reported.
  pub scheduled_sync_settles :
      (ts : List ℕ) (config : VoiceSyncConfig) (c : Bytes) (now : ℕ) (announce : Bool)
      → (state : VoiceRuntimeState) (ipc : I.Ipc)
      → ((i : I.Ipc) → (I.get_selected_voice_channel i).0.channel_id ≡ c)
      → c ≢ []
      → max 1 config.max_attempts ≤ length ts
      → Spaced now (config.retry_interval_ms * 1000000) ts
      → let scheduled = schedule_channel_sync I (state, ipc) c now config announce in
        Settled c (sync_at ts config scheduled).0
  unfolding schedule_channel_sync
  scheduled_sync_settles ts config [] now announce state ipc answers some_channel many due =
      absurd (some_channel refl)
  scheduled_sync_settles ts config (x ∷ cs) now announce state ipc answers some_channel many due =
      sync_at-settles ts config x cs (max 1 config.max_attempts) _ _ answers (omega arith)
        (record { target = refl; attempts = refl; due = refl }) many due
