-- ===== src/Voice/Events/Users.antt =====
-- The user list under one event: which user changes, and what stays.
use sigaw.Prelude.{
  ℕ, ◌≡◌, refl, Bool, not, List, [], ◌∷◌, inl, inr, arith, ◌==◌, if◌then◌else◌, Distinct, Fresh,
  keep_if, Bool-cases,
}
use sigaw.Json.Interface.{JsonLib}
use sigaw.Voice.State.{VoiceUser}
use sigaw.Voice.Events.Defs.{
  update_first, erase_first, has_id, update_voice_identity, apply_voice_flags, refreshed,
}

abbrev pub user_id : VoiceUser → ℕ
user_id u = u.id

module _ (p : VoiceUser → Bool) (f : VoiceUser → VoiceUser)
    (same : (u : VoiceUser) → (f u).id ≡ u.id) where
  Fresh-update_first :
      (k : ℕ) (us : List VoiceUser) → Fresh user_id k us → Fresh user_id k (update_first p f us)
  unfolding update_first
  Fresh-update_first k [] h = tt
  Fresh-update_first k (u ∷ us) h = ground (arith, same u, Fresh-update_first k us h.1)

  pub Distinct-update_first :
      (us : List VoiceUser) → Distinct user_id us → Distinct user_id (update_first p f us)
  unfolding update_first
  Distinct-update_first [] d = tt
  Distinct-update_first (u ∷ us) d =
      ground (arith, same u, Fresh-update_first u.id us d.0, Distinct-update_first us d.1)

Fresh-erase_first :
    (p : VoiceUser → Bool) (k : ℕ) (us : List VoiceUser)
    → Fresh user_id k us
    → Fresh user_id k (erase_first p us)
unfolding erase_first
Fresh-erase_first p k [] h = tt
Fresh-erase_first p k (u ∷ us) h = ground (arith, Fresh-erase_first p k us h.1)

pub Distinct-erase_first :
    (p : VoiceUser → Bool) (us : List VoiceUser)
    → Distinct user_id us
    → Distinct user_id (erase_first p us)
unfolding erase_first
Distinct-erase_first p [] d = tt
Distinct-erase_first p (u ∷ us) d =
    ground (arith, Fresh-erase_first p u.id us d.0, Distinct-erase_first p us d.1)

-- Every user but the one with the id `k`.
abbrev pub others : ℕ → List VoiceUser → List VoiceUser
others k = keep_if (λ u. not (u.id == k))

others-Fresh : (k : ℕ) (us : List VoiceUser) → Fresh user_id k us → others k us ≡ us
unfolding keep_if
others-Fresh k [] h = refl
others-Fresh k (u ∷ us) h = ground (arith, others-Fresh k us h.1)

pub erase_first-others :
    (k : ℕ) (us : List VoiceUser) → Distinct user_id us → erase_first (has_id k) us ≡ others k us
unfolding erase_first keep_if
erase_first-others k [] d = refl
erase_first-others k (u ∷ us) d = elim (Bool-cases (u.id == k)) [
  | inl e ↦ let here : u.id ≡ k = ground arith in ground (arith, others-Fresh u.id us d.0, here)
  | inr e ↦ ground (arith, erase_first-others k us d.1)
]

-- The user `k` is replaced by its image, and every other stays in its place.
abbrev pub changed_at : ℕ → (VoiceUser → VoiceUser) → List VoiceUser → List VoiceUser
changed_at k f [] = []
changed_at k f (u ∷ us) = (if u.id == k then f u else u) ∷ changed_at k f us

changed_at-Fresh :
    (k : ℕ) (f : VoiceUser → VoiceUser) (us : List VoiceUser)
    → Fresh user_id k us
    → changed_at k f us ≡ us
changed_at-Fresh k f [] h = refl
changed_at-Fresh k f (u ∷ us) h = ground (arith, changed_at-Fresh k f us h.1)

pub update_first-changed_at :
    (k : ℕ) (f : VoiceUser → VoiceUser) (us : List VoiceUser)
    → Distinct user_id us
    → update_first (has_id k) f us ≡ changed_at k f us
unfolding update_first
update_first-changed_at k f [] d = refl
update_first-changed_at k f (u ∷ us) d = elim (Bool-cases (u.id == k)) [
  | inl e ↦
      let here : u.id ≡ k = ground arith in ground (arith, changed_at-Fresh u.id f us d.0, here)
  | inr e ↦ ground (arith, update_first-changed_at k f us d.1)
]

module _ (J : JsonLib) where
  pub refreshed-id :
      (u : VoiceUser) (d j : J.Json)
      → ((refreshed J u d j).id ≡ u.id) × ((refreshed J u d j).speaking ≡ u.speaking)
  unfolding refreshed apply_voice_flags update_voice_identity
  refreshed-id u d j = ground arith
