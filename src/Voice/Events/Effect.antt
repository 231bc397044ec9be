-- ===== src/Voice/Events/Effect.antt =====
-- The user list as a map from ids to users, and each user event as an operation on that map.
use mathlib.Core.Bool.{xor}
use mathlib.Core.Option
use sigaw.Prelude.{
  ℕ, ◌≡◌, ◌≢◌, refl, Bool, false, List, [], ◌∷◌, ◌++◌, Option, none, some, inl, inr, arith, ◌==◌,
  if◌then◌else◌, Distinct, find_if, Fresh-find_if, Option-cases, lit,
}
use sigaw.Json.Interface.{JsonLib}
use sigaw.Json.Utils.{u64_or, object_or_null}
use sigaw.Voice.State.{VoiceUser, VoiceRuntimeState, new_user}
use sigaw.Voice.Events.Defs.{
  update_first, erase_first, has_id, refreshed, join, on_state_create, on_state_update,
  on_state_delete, on_speaking,
}
use sigaw.Voice.Events.Users.{user_id, refreshed-id}

-- The user with a given id.
abbrev pub user_at : ℕ → List VoiceUser → Option VoiceUser
user_at k us = find_if (has_id k) us

user_at-append :
    (k : ℕ) (us : List VoiceUser) (u : VoiceUser)
    → user_at k (us ++ u ∷ [])
      ≡ (elim (user_at k us) [ none ↦ if u.id == k then some u else none | some v ↦ some v ])
unfolding find_if
user_at-append k [] u = refl
user_at-append k (v ∷ us) u = ground (arith, user_at-append k us u)

user_at-update_first :
    (k uid : ℕ) (f : VoiceUser → VoiceUser) (us : List VoiceUser)
    → ((u : VoiceUser) → (f u).id ≡ u.id)
    → user_at k (update_first (has_id uid) f us)
      ≡ (if k == uid then Option.map f (user_at k us) else user_at k us)
unfolding find_if update_first
user_at-update_first k uid f [] same = ground arith
user_at-update_first k uid f (u ∷ us) same =
    ground (arith, same u, user_at-update_first k uid f us same)

user_at-erase_first :
    (k uid : ℕ) (us : List VoiceUser)
    → Distinct user_id us
    → user_at k (erase_first (has_id uid) us) ≡ (if k == uid then none else user_at k us)
unfolding find_if erase_first
user_at-erase_first k uid [] d = ground arith
user_at-erase_first k uid (u ∷ us) d =
    ground (arith, Fresh-find_if user_id u.id us d.0, user_at-erase_first k uid us d.1)

abbrev pub set_speaking : Bool → VoiceUser → VoiceUser
set_speaking b v = record v { speaking = b }

set_speaking_same : (b : Bool) (u : VoiceUser) → xor u.speaking b ≡ false → set_speaking b u ≡ u
unfolding xor
set_speaking_same b u h = ground arith

module _ (J : JsonLib) where
  open J use {Json}

  -- VOICE_STATE_DELETE for a user removes that user, and no other, from a list that has no user twice.
  pub on_state_delete-user_at :
      (state : VoiceRuntimeState) (d user : Json) (k : ℕ)
      → object_or_null J d (lit "user") ≡ some user
      → Distinct user_id state.voice.users
      → user_at k (on_state_delete J state d).0.voice.users
        ≡ (if k == u64_or J user (lit "id") 0 then none else user_at k state.voice.users)
  unfolding on_state_delete
  on_state_delete-user_at state d user k e distinct =
      ground
        (arith, e, user_at-erase_first k (u64_or J user (lit "id") 0) state.voice.users distinct)

  -- VOICE_STATE_CREATE for a user with an id adds that user, read from the event, if the id is not
  -- in the map, and leaves every other entry and an entry that is there as it is.
  pub on_state_create-user_at :
      (state : VoiceRuntimeState) (d user : Json) (k uid : ℕ)
      → object_or_null J d (lit "user") ≡ some user
      → u64_or J user (lit "id") 0 ≡ uid
      → uid ≢ 0
      → user_at k (on_state_create J state d).0.voice.users ≡ (elim (user_at k state.voice.users) [
        | none ↦ if k == uid then some (refreshed J (new_user uid) d user) else none
        | some v ↦ some v
      ])
  unfolding on_state_create join
  on_state_create-user_at state d user k uid e i pos = ground (
    arith,
    e,
    user_at-append k state.voice.users (refreshed J (new_user uid) d user),
    refreshed-id J (new_user uid) d user,
  )

  -- VOICE_STATE_UPDATE for a user with an id refreshes the entry of that user from the event, a new
  -- user if there is none, and leaves every other entry as it is.
  pub on_state_update-user_at :
      (state : VoiceRuntimeState) (d user : Json) (k uid : ℕ)
      → object_or_null J d (lit "user") ≡ some user
      → u64_or J user (lit "id") 0 ≡ uid
      → uid ≢ 0
      → user_at k (on_state_update J state d).0.voice.users ≡ (
          if k == uid
          then some
              (refreshed J (Option.get_or (user_at uid state.voice.users) (new_user uid)) d user)
          else user_at k state.voice.users)
  unfolding on_state_update join
  on_state_update-user_at state d user k uid e i pos = ground (
    arith,
    e,
    user_at-append k state.voice.users (refreshed J (new_user uid) d user),
    user_at-update_first k uid (λ (u : VoiceUser). refreshed J u d user) state.voice.users
        (λ u. (refreshed-id J u d user).0),
    refreshed-id J (new_user uid) d user,
  )

  -- SPEAKING_START and SPEAKING_STOP for a user id set the flag of that user's entry, leave every
  -- other entry as it is, and report a change exactly when the flag of the entry was the other.
  pub on_speaking-user_at :
      (state : VoiceRuntimeState) (d : Json) (b : Bool) (k uid : ℕ)
      → u64_or J d (lit "user_id") 0 ≡ uid
      → uid ≢ 0
      → let (s, r) = on_speaking J state d b in
        (user_at k s.voice.users ≡ (
          if k == uid
          then Option.map (set_speaking b) (user_at k state.voice.users)
          else user_at k state.voice.users))
        × (r.state_changed
            ≡ (elim (user_at uid state.voice.users) [ none ↦ false | some v ↦ xor v.speaking b ]))
  unfolding on_speaking
  on_speaking-user_at state d b k uid i pos = elim (Option-cases (user_at uid state.voice.users)) [
    | inl missing ↦ ground (arith, i, pos, missing)
    | inr (u, found) ↦ ground (
      arith,
      i,
      pos,
      found,
      set_speaking_same b u,
      user_at-update_first k uid (set_speaking b) state.voice.users (λ v. refl),
    )
  ]
