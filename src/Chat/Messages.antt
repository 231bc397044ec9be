-- ===== src/Chat/Messages.antt =====
-- The stored chat messages under insertion, removal and the loading of a history.
use sigaw.Prelude.{
  ℕ, zero, suc, ◌-◌, ◌≤◌, ◌<◌, ◌≡◌, ◌≢◌, refl, ◌∙◌, min, Bool, false, not, List, [], ◌∷◌, ◌++◌,
  Option, none, some, arith, ◌==◌, ltb, if◌then◌else◌, is_empty, All, Distinct, keep_if, find_if,
  drop, length, length-drop, length-append, length-keep_if-le, All-append, All-drop, All-keep_if,
  Distinct-keep_if, Distinct-concat, Distinct-drop, Fresh-keep_if_ne, Fresh-find_if, if_rule,
}
use sigaw.Voice.State.{VoiceChatMessage, VoiceState}
use sigaw.Chat.Defs.{newest, is_message, upsert_chat_message, remove_chat_message}

abbrev pub message_id : VoiceChatMessage → ℕ
message_id m = m.id

-- A message that can be shown: it has an id and a text.
abbrev pub IsShown : VoiceChatMessage → Type 0
IsShown m = (m.id ≢ 0) × (is_empty m.content ≡ false)

-- What the daemon keeps true of the messages of a channel.
pub record IsChat (max_messages : ℕ) (ms : List VoiceChatMessage) : Type 0 where
  pub bounded : length ms ≤ max_messages
  pub distinct : Distinct message_id ms
  pub shown : All IsShown ms

length-newest-le : (n : ℕ) (ms : List VoiceChatMessage) → length (newest n ms) ≤ n
length-newest-le n ms = ground (arith, length-drop (length ms - n) ms)

newest-IsChat :
    (n : ℕ) (ms : List VoiceChatMessage)
    → Distinct message_id ms
    → All IsShown ms
    → IsChat n (newest n ms)
newest-IsChat n ms d a = record {
  bounded = length-newest-le n ms;
  distinct =
      if_rule (Distinct message_id) (ltb n (length ms)) _ _
        (λ _. Distinct-drop message_id (length ms - n) ms d) λ _. d;
  shown =
      if_rule (All IsShown) (ltb n (length ms)) _ _ (λ _. All-drop IsShown (length ms - n) ms a)
        λ _. a;
}

pub upsert_chat_message-IsChat :
    (voice : VoiceState) (m : VoiceChatMessage) (n : ℕ)
    → IsChat n voice.chat_messages
    → IsShown m
    → IsChat n (upsert_chat_message voice m n).0.chat_messages
unfolding upsert_chat_message
upsert_chat_message-IsChat voice m n c s =
    let ms = voice.chat_messages in
    let p = λ (x : VoiceChatMessage). not (x.id == m.id) in
    newest-IsChat n (keep_if p ms ++ m ∷ [])
      (Distinct-concat message_id (keep_if p ms) m (Distinct-keep_if message_id p ms c.distinct)
        (Fresh-keep_if_ne message_id m.id ms))
      (All-append IsShown (keep_if p ms) (m ∷ []) (All-keep_if IsShown p ms c.shown) (s, tt))

keep_if-IsChat :
    (p : VoiceChatMessage → Bool) (ms : List VoiceChatMessage) (n : ℕ)
    → IsChat n ms
    → IsChat n (keep_if p ms)
keep_if-IsChat p ms n c = record {
  bounded = omega (arith, length-keep_if-le p ms, c.bounded);
  distinct = Distinct-keep_if message_id p ms c.distinct;
  shown = All-keep_if IsShown p ms c.shown;
}

pub remove_chat_message-IsChat :
    (voice : VoiceState) (i n : ℕ)
    → IsChat n voice.chat_messages
    → IsChat n (remove_chat_message voice i).0.chat_messages
unfolding remove_chat_message
remove_chat_message-IsChat voice i n c = keep_if-IsChat _ voice.chat_messages n c

-- A removal that leaves the number of messages as it was removes none.
pub keep_if-all :
    (p : VoiceChatMessage → Bool) (ms : List VoiceChatMessage)
    → length ms ≡ length (keep_if p ms)
    → keep_if p ms ≡ ms
unfolding keep_if
keep_if-all p [] h = refl
keep_if-all p (m ∷ ms) h = ground (arith, keep_if-all p ms, length-keep_if-le p ms)

-- The message with a given id.
abbrev pub message_at : ℕ → VoiceState → Option VoiceChatMessage
message_at k voice = find_if (is_message k) voice.chat_messages

find_if-keep_if_ne :
    (k i : ℕ) (ms : List VoiceChatMessage)
    → find_if (is_message k) (keep_if (λ m. not (m.id == i)) ms)
      ≡ (if k == i then none else find_if (is_message k) ms)
unfolding find_if keep_if
find_if-keep_if_ne k i [] = ground arith
find_if-keep_if_ne k i (m ∷ ms) = ground (arith, find_if-keep_if_ne k i ms)

-- A removed id is found no more, and every other id is found with the message it had.
pub remove_chat_message-message_at :
    (voice : VoiceState) (i k : ℕ)
    → message_at k (remove_chat_message voice i).0 ≡ (if k == i then none else message_at k voice)
unfolding remove_chat_message
remove_chat_message-message_at voice i k = find_if-keep_if_ne k i voice.chat_messages

find_if-concat :
    (k : ℕ) (ms : List VoiceChatMessage) (m : VoiceChatMessage)
    → find_if (is_message k) (ms ++ m ∷ []) ≡ (elim (find_if (is_message k) ms) [
      | none ↦ if m.id == k then some m else none
      | some x ↦ some x
    ])
unfolding find_if
find_if-concat k [] m = refl
find_if-concat k (x ∷ ms) m = ground (arith, find_if-concat k ms m)

-- The place of a message among those that are kept: whatever is dropped stands before the last.
drop-concat :
    (n : ℕ) (ms : List VoiceChatMessage) (m : VoiceChatMessage)
    → n ≤ length ms
    → drop n (ms ++ m ∷ []) ≡ drop n ms ++ m ∷ []
drop-concat zero ms m h = refl
drop-concat (suc n) [] m h = absurd (omega arith)
drop-concat (suc n) (x ∷ ms) m h = drop-concat n ms m (omega arith)

newest-concat :
    (n : ℕ) (ms : List VoiceChatMessage) (m : VoiceChatMessage)
    → 0 < n
    → newest n (ms ++ m ∷ []) ≡ drop (suc (length ms) - n) ms ++ m ∷ []
newest-concat n ms m pos =
    let size : length (ms ++ m ∷ []) ≡ suc (length ms) = length-append ms (m ∷ []) ∙ omega arith in
    if_rule (λ xs. xs ≡ drop (suc (length ms) - n) ms ++ m ∷ []) (ltb n (length (ms ++ m ∷ []))) _ _
      (λ _. rw size (drop-concat (suc (length ms) - n) ms m (omega arith)))
      (λ fits.
        let none_over : suc (length ms) - n ≡ 0 = ground (arith, fits, size) in rw none_over refl)

-- With room for `n` messages, one at least: after the insertion the list is what was there without the older
-- versions of the message, less exactly as many of the oldest as are too many, and the new message behind it;
-- so there are as many messages as before and one more, but at most `n`. The new message is found under its id.
pub upsert_chat_message-message_at :
    (voice : VoiceState) (m : VoiceChatMessage) (n : ℕ)
    → 0 < n
    → let others = keep_if (λ x. not (x.id == m.id)) voice.chat_messages in
      let after = (upsert_chat_message voice m n).0 in
      (after.chat_messages ≡ drop (suc (length others) - n) others ++ m ∷ [])
      × (length after.chat_messages ≡ min n (suc (length others)))
      × (message_at m.id after ≡ some m)
unfolding upsert_chat_message
upsert_chat_message-message_at voice m n pos =
    let others = keep_if (λ (x : VoiceChatMessage). not (x.id == m.id)) voice.chat_messages in
    let k = suc (length others) - n in
    let e = newest-concat n others m pos in
    let gone : find_if (is_message m.id) (drop k others) ≡ none =
      Fresh-find_if message_id m.id (drop k others) (
        All-drop (λ x. x.id ≢ m.id) k others
          (Fresh-keep_if_ne message_id m.id voice.chat_messages)) in
    let count : length (drop k others ++ m ∷ []) ≡ min n (suc (length others)) =
      length-append (drop k others) (m ∷ []) ∙ omega (arith, length-drop k others, pos) in
    (e, rw e count, rw e (ground (arith, gone, find_if-concat m.id (drop k others) m)))
