-- ===== src/Chat/Events.antt =====
-- `process_chat_event` and `load_chat_history`: what each event keeps, changes and reports.
use sigaw.Prelude.{
  ℕ, ◌≡◌, ◌≢◌, refl, Bool, false, not, ◌&&◌, ◌||◌, [], none, some, arith, ◌==◌, is_empty, lit,
  str_eq, Option_rule, if_rule, find_if-key,
}
use sigaw.Json.Interface.{JsonLib, contains}
use sigaw.Json.Utils.{string_or, u64_or}
use sigaw.Voice.State.{VoiceChatMessage, VoiceState}
use sigaw.Chat.Defs.{
  new_message, with_messages, find_chat_message, upsert_chat_message, remove_chat_message,
  message_content, parse_chat_message, event_message_object, update_author, store_update,
  on_message_update, on_message_create, process_chat_event,
}
use sigaw.Chat.Messages.{
  message_id, IsShown, IsChat, upsert_chat_message-IsChat, remove_chat_message-IsChat, keep_if-all,
}

-- An event changes the chat messages at most, keeps the invariant of the chat, and one that reports
-- no change has changed nothing.
pub record ChatOnly (n : ℕ) (voice : VoiceState) (out : VoiceState × Bool) : Type 0 where
  pub frame : out.0 ≡ with_messages voice out.0.chat_messages
  pub kept : IsChat n voice.chat_messages → IsChat n out.0.chat_messages
  pub reported : out.1 ≡ false → out.0 ≡ voice

same-ChatOnly : (n : ℕ) (voice : VoiceState) → ChatOnly n voice (voice, false)
same-ChatOnly n voice = record { frame = refl; kept = λ c. c; reported = λ _. refl }

upsert-ChatOnly :
    (n : ℕ) (voice : VoiceState) (m : VoiceChatMessage)
    → IsShown m
    → ChatOnly n voice (upsert_chat_message voice m n)
unfolding upsert_chat_message
upsert-ChatOnly n voice m s = record {
  frame = refl;
  kept = λ c. upsert_chat_message-IsChat voice m n c s;
  reported = λ e. absurd (cc);
}

remove-ChatOnly :
    (n : ℕ) (voice : VoiceState) (i : ℕ) → ChatOnly n voice (remove_chat_message voice i)
unfolding remove_chat_message
remove-ChatOnly n voice i = record {
  frame = refl;
  kept = remove_chat_message-IsChat voice i n;
  reported = λ e. rw (keep_if-all (λ m. not (m.id == i)) voice.chat_messages (ground arith));
}

module _ (J : JsonLib) where
  open J use {Json}

  parse_chat_message-IsShown :
      (j : Json) (t : ℕ) (m : VoiceChatMessage) → parse_chat_message J j t ≡ some m → IsShown m
  unfolding parse_chat_message
  parse_chat_message-IsShown j t m e = ground arith

  update_author-same :
      (m : VoiceChatMessage) (j : Json)
      → ((update_author J m j).id ≡ m.id) × ((update_author J m j).content ≡ m.content)
  unfolding update_author
  update_author-same m j = ground arith

  store_update-ChatOnly :
      (n t : ℕ) (voice : VoiceState) (j : Json) (m : VoiceChatMessage)
      → m.id ≢ 0
      → ChatOnly n voice (store_update J voice j m t n)
  unfolding store_update
  store_update-ChatOnly n t voice j m pos =
      if_rule (ChatOnly n voice) (is_empty m.content) _ _
        (λ _.
          Option_rule (ChatOnly n voice) (parse_chat_message J j t) _ _ (λ _. same-ChatOnly n voice)
            λ parsed e. upsert-ChatOnly n voice parsed (parse_chat_message-IsShown j t parsed e))
        λ e. upsert-ChatOnly n voice m (pos, e)

  on_message_create-ChatOnly :
      (n t : ℕ) (voice : VoiceState) (j : Json) → ChatOnly n voice (on_message_create J voice j t n)
  unfolding on_message_create
  on_message_create-ChatOnly n t voice j =
      Option_rule (ChatOnly n voice) (parse_chat_message J j t) _ _ (λ _. same-ChatOnly n voice)
        λ m e. upsert-ChatOnly n voice m (parse_chat_message-IsShown j t m e)

  -- The message that an update starts from.
  abbrev base : VoiceState → ℕ → VoiceChatMessage
  base voice i = elim (find_chat_message voice i) [ none ↦ new_message i | some m ↦ m ]

  base-id : (voice : VoiceState) (i : ℕ) → (base voice i).id ≡ i
  unfolding find_chat_message
  base-id voice i =
      Option_rule (λ (m : VoiceChatMessage). m.id ≡ i) (find_chat_message voice i) _ _ (λ _. refl)
        (find_if-key message_id i voice.chat_messages)

  on_message_update-ChatOnly :
      (n t : ℕ) (voice : VoiceState) (j : Json) → ChatOnly n voice (on_message_update J voice j t n)
  unfolding on_message_update
  on_message_update-ChatOnly n t voice j =
      let i = u64_or J j (lit "id") 0 in
      let old = record (base voice i) { observed_at_ms = t } in
      let named = update_author-same old j in
      let id_known = base-id voice i in
      if_rule (ChatOnly n voice) (i == 0) _ _ (λ _. same-ChatOnly n voice)
        λ pos.
          if_rule (ChatOnly n voice)
            (contains J j (lit "content") || contains J j (lit "attachments")) _ _
            (λ _.
              if_rule (ChatOnly n voice) (is_empty (message_content J j)) _ _
                (λ _. remove-ChatOnly n voice i)
                λ _. store_update-ChatOnly n t voice j _ (ground arith))
            λ _. store_update-ChatOnly n t voice j _ (ground arith)

  -- Every chat event, whatever it holds, changes the chat messages at most: the channel and its
  -- users stay. It keeps the messages bounded in number, with distinct ids, none of them with id 0
  -- or with an empty text; and one that reports no change has changed nothing.
  pub process_chat_event-ChatOnly :
      (event : Json) (voice : VoiceState) (t n : ℕ)
      → ChatOnly n voice (process_chat_event J event voice t n)
  unfolding process_chat_event
  process_chat_event-ChatOnly event voice t n =
      let P = ChatOnly n voice in
      let evt = string_or J event (lit "evt") [] in
      if_rule P (not (str_eq (string_or J event (lit "cmd") []) (lit "DISPATCH"))) _ _
        (λ _. same-ChatOnly n voice)
        λ _.
          Option_rule P (event_message_object J event) _ _ (λ _. same-ChatOnly n voice)
            λ payload _.
              if_rule P (str_eq evt (lit "MESSAGE_DELETE")) _ _
                (λ _. remove-ChatOnly n voice (u64_or J payload (lit "id") 0))
                λ _.
                  if_rule P
                    (not (str_eq evt (lit "MESSAGE_CREATE"))
                      && not (str_eq evt (lit "MESSAGE_UPDATE")))
                    _ _ (λ _. same-ChatOnly n voice)
                    λ _.
                      if_rule P (str_eq evt (lit "MESSAGE_CREATE")) _ _
                        (λ _. on_message_create-ChatOnly n t voice payload)
                        λ _. on_message_update-ChatOnly n t voice payload
