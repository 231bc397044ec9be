-- ===== src/Tests/Chat.antt =====
-- The theorems of Chat at concrete inputs, and a test of the order of the kept messages.
use sigaw.Prelude.{
  length, min, suc, ◌-◌, ℕ, ◌+◌, ◌<◌, ◌≤◌, ◌≡◌, refl, true, [], ◌∷◌, ◌++◌, none, some, arith, ◌==◌,
  if◌then◌else◌, not, lit, All, keep_if, drop, false,
}
use sigaw.Voice.State.{VoiceChatMessage, VoiceState}
use sigaw.Chat.Text.{collapse_whitespace}
use sigaw.Chat.Defs.{
  new_message, remove_chat_message, upsert_chat_message, process_chat_event, next_timeout_ms,
  prune_expired_messages, repaint_due, repaint_interval_ms,
}
use sigaw.Chat.Messages.{message_at, remove_chat_message-message_at, upsert_chat_message-message_at}
use sigaw.Chat.Events.{ChatOnly, process_chat_event-ChatOnly}
use sigaw.Chat.Follow.{refresh_chat_state, refresh_chat_state_idem}
use sigaw.Chat.Timing.{Holds, next_timeout_ms-prune, next_timeout_ms_bounds}
use sigaw.Tests.Parameters.{
  Value, str, obj, field, end, tree_json, event_of, lobby, lobby_ipc, in_lobby,
}

abbrev said : ℕ → ℕ → VoiceChatMessage
said i t = record (new_message i) { observed_at_ms = t; content = lit "hi" }

abbrev chatty : VoiceState
chatty = record lobby { chat_messages = said 1 100 ∷ said 2 9000 ∷ [] }

abbrev hello : Value
hello =
    event_of (lit "MESSAGE_CREATE")
      (obj (field (lit "id") (str (lit "3")) (field (lit "content") (str (lit " hi  all ")) end)))

process_chat_event-ChatOnly_example :
    ChatOnly 8 chatty (process_chat_event tree_json hello chatty 9500 8)
process_chat_event-ChatOnly_example = process_chat_event-ChatOnly tree_json hello chatty 9500 8

upsert_chat_message-message_at_example :
    let others = keep_if (λ x. not (x.id == 2)) chatty.chat_messages in
    let after = (upsert_chat_message chatty (said 2 9500) 2).0 in
    (after.chat_messages ≡ drop (suc (length others) - 2) others ++ said 2 9500 ∷ [])
    × (length after.chat_messages ≡ min 2 (suc (length others)))
    × (message_at 2 after ≡ some (said 2 9500))
upsert_chat_message-message_at_example =
    upsert_chat_message-message_at chatty (said 2 9500) 2 (omega arith)

remove_chat_message-message_at_example :
    message_at 2 (remove_chat_message chatty 1).0 ≡ (if 2 == 1 then none else message_at 2 chatty)
remove_chat_message-message_at_example = remove_chat_message-message_at chatty 1 2

next_timeout_ms-prune_example :
    (next_timeout_ms chatty 14100 250 == 0) ≡ (prune_expired_messages chatty 14100).1
next_timeout_ms-prune_example = next_timeout_ms-prune chatty 14100 250 (omega arith)

next_timeout_ms_bounds_example :
    (next_timeout_ms chatty 10050 250 ≤ 250)
    × (repaint_due chatty 10050 ≡ true → next_timeout_ms chatty 10050 250 ≤ repaint_interval_ms)
    × ((dt : ℕ)
        → dt < next_timeout_ms chatty 10050 250
        → All (Holds 10050 (10050 + dt)) chatty.chat_messages)
next_timeout_ms_bounds_example = next_timeout_ms_bounds chatty 10050 250

collapsed : collapse_whitespace (lit " hi  all ") ≡ lit "hi all"
unfolding collapse_whitespace lit
collapsed = refl

refresh_chat_state_idem_example :
    let (s, i, changed) = refresh_chat_state lobby_ipc (in_lobby, []) true in
    refresh_chat_state lobby_ipc (s, i) true ≡ (s, i, false)
refresh_chat_state_idem_example =
    refresh_chat_state_idem lobby_ipc (λ scope channel i. refl) (λ scope channel i. refl) in_lobby
      [] true
