-- ===== src/Chat/Timing.antt =====
-- When chat messages expire and when the daemon wakes up for them.
use sigaw.Prelude.{
  ℕ, ◌+◌, ◌-◌, ◌≤◌, ◌<◌, ◌≡◌, refl, sym, ◌∙◌, Bool, true, not, ◌&&◌, List, [], ◌∷◌, arith, ◌==◌,
  ltb, leb, length, keep_if, any_of, length-keep_if-le, All, Bool-cases, inl, inr, min,
}
use sigaw.Voice.State.{VoiceChatMessage, VoiceState}
use sigaw.Chat.Defs.{
  hold_ms, total_lifetime_ms, repaint_interval_ms, age, timeout_from, next_timeout_ms,
  prune_expired_messages, repaint_due,
}

abbrev is_expired : ℕ → VoiceChatMessage → Bool
is_expired now m = leb total_lifetime_ms (age m now)

timeout_from-le : (ms : List VoiceChatMessage) (now t : ℕ) → timeout_from ms now t ≤ t
unfolding timeout_from
timeout_from-le [] now t = omega arith
timeout_from-le (m ∷ ms) now t = ground (
  arith,
  timeout_from-le ms now (min t (hold_ms - age m now)),
  timeout_from-le ms now (min t repaint_interval_ms),
)

timeout_from-zero :
    (ms : List VoiceChatMessage) (now t : ℕ)
    → 0 < t
    → (timeout_from ms now t == 0) ≡ any_of (is_expired now) ms
unfolding timeout_from any_of
timeout_from-zero [] now t pos = ground arith
timeout_from-zero (m ∷ ms) now t pos = ground (
  arith,
  timeout_from-zero ms now (min t (hold_ms - age m now)),
  timeout_from-zero ms now (min t repaint_interval_ms),
)

length-keep_if-not :
    (p : VoiceChatMessage → Bool) (ms : List VoiceChatMessage)
    → not (length ms == length (keep_if (λ m. not (p m)) ms)) ≡ any_of p ms
unfolding keep_if any_of
length-keep_if-not p [] = refl
length-keep_if-not p (m ∷ ms) =
    ground (arith, length-keep_if-not p ms, length-keep_if-le (λ m. not (p m)) ms)

-- For a wait that is not zero, the daemon asks to be woken at once exactly when a message has outlived its time, that is, when
-- pruning at that moment removes one.
pub next_timeout_ms-prune :
    (voice : VoiceState) (now t : ℕ)
    → 0 < t
    → (next_timeout_ms voice now t == 0) ≡ (prune_expired_messages voice now).1
unfolding next_timeout_ms prune_expired_messages
next_timeout_ms-prune voice now t pos =
    timeout_from-zero voice.chat_messages now t pos
    ∙ sym (length-keep_if-not (is_expired now) voice.chat_messages)

-- A message that is shown in full at `now` and at `later`.
abbrev pub Holds : ℕ → ℕ → VoiceChatMessage → Type 0
Holds now later m = age m now < hold_ms → age m later < hold_ms

timeout_from-Holds :
    (ms : List VoiceChatMessage) (now dt t : ℕ)
    → dt < timeout_from ms now t
    → All (Holds now (now + dt)) ms
unfolding timeout_from age
timeout_from-Holds [] now dt t h = tt
timeout_from-Holds (m ∷ ms) now dt t h = elim (Bool-cases (ltb (age m now) hold_ms)) [
  | inl held ↦
      let next = min t (hold_ms - age m now) in
      let rest : dt < timeout_from ms now next = ground arith in
      (λ _. ground (arith, timeout_from-le ms now next), timeout_from-Holds ms now dt next rest)
  | inr faded ↦
      let next = min t repaint_interval_ms in
      let rest : dt < timeout_from ms now next = ground arith in
      (λ young. absurd (ground arith), timeout_from-Holds ms now dt next rest)
]

timeout_from-repaint :
    (ms : List VoiceChatMessage) (now t : ℕ)
    → any_of (λ m. leb hold_ms (age m now) && ltb (age m now) total_lifetime_ms) ms ≡ true
    → timeout_from ms now t ≤ repaint_interval_ms
unfolding timeout_from any_of
timeout_from-repaint [] now t h = absurd (cc)
timeout_from-repaint (m ∷ ms) now t h = ground (
  arith,
  timeout_from-le ms now (min t repaint_interval_ms),
  timeout_from-repaint ms now (min t (hold_ms - age m now)),
  timeout_from-repaint ms now (min t repaint_interval_ms),
)

-- The wait is at most the one asked for, and at most the repaint interval while a message fades;
-- and no message that is shown in full at the start of the wait begins to fade before its end.
pub next_timeout_ms_bounds :
    (voice : VoiceState) (now t : ℕ)
    → (next_timeout_ms voice now t ≤ t)
      × (repaint_due voice now ≡ true → next_timeout_ms voice now t ≤ repaint_interval_ms)
      × ((dt : ℕ)
          → dt < next_timeout_ms voice now t
          → All (Holds now (now + dt)) voice.chat_messages)
unfolding next_timeout_ms repaint_due
next_timeout_ms_bounds voice now t = (
  timeout_from-le voice.chat_messages now t,
  timeout_from-repaint voice.chat_messages now t,
  λ dt. timeout_from-Holds voice.chat_messages now dt t,
)
