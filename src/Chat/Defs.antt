-- ===== src/Chat/Defs.antt =====
-- Reading chat messages and keeping the list of them: src/daemon/chat_runtime.h.
use sigaw.Prelude.{
  ℕ, ◌+◌, ◌-◌, min, Bool, true, false, not, ◌&&◌, ◌||◌, List, [], ◌∷◌, ◌++◌, reverse, Option, none,
  some, ◌==◌, ltb, leb, if◌then◌else◌, Bytes, lit, str_eq, is_empty, find_if, keep_if, any_of, drop,
  length,
}
use sigaw.Json.Interface.{JsonLib, contains}
use sigaw.Json.Utils.{object_or_null, string_or, u64_or, display_name}
use sigaw.Voice.State.{VoiceChatMessage, VoiceState}
use sigaw.Chat.Text.{collapse_whitespace}

abbrev pub hold_ms : ℕ
hold_ms = 10000

abbrev pub fade_ms : ℕ
fade_ms = 4000

abbrev pub total_lifetime_ms : ℕ
total_lifetime_ms = hold_ms + fade_ms

abbrev pub repaint_interval_ms : ℕ
repaint_interval_ms = 100

-- `VoiceChatMessage updated; updated.id = message_id;`.
abbrev pub new_message : ℕ → VoiceChatMessage
new_message i = record { id = i; author_id = 0; observed_at_ms = 0; author_name = []; content = [] }

abbrev pub with_messages : VoiceState → List VoiceChatMessage → VoiceState
with_messages voice ms = record voice { chat_messages = ms }

abbrev pub is_message : ℕ → VoiceChatMessage → Bool
is_message i m = m.id == i

unfoldable pub find_chat_message : VoiceState → ℕ → Option VoiceChatMessage
find_chat_message voice message_id = find_if (is_message message_id) voice.chat_messages

-- The last `max_messages` of a list: what the erasure at the front leaves.
abbrev pub newest : ℕ → List VoiceChatMessage → List VoiceChatMessage
newest max_messages ms =
    if ltb max_messages (length ms) then drop (length ms - max_messages) ms else ms

unfoldable pub upsert_chat_message : VoiceState → VoiceChatMessage → ℕ → VoiceState × Bool
upsert_chat_message voice message max_messages =
    let others = keep_if (λ m. not (m.id == message.id)) voice.chat_messages in
    (with_messages voice (newest max_messages (others ++ message ∷ [])), true)

unfoldable pub remove_chat_message : VoiceState → ℕ → VoiceState × Bool
remove_chat_message voice message_id =
    let left = keep_if (λ m. not (m.id == message_id)) voice.chat_messages in
    (with_messages voice left, not (length voice.chat_messages == length left))

-- The age of a message, in milliseconds.
unfoldable pub age : VoiceChatMessage → ℕ → ℕ
age m now_ms = if ltb m.observed_at_ms now_ms then now_ms - m.observed_at_ms else 0

unfoldable pub prune_expired_messages : VoiceState → ℕ → VoiceState × Bool
unfolding age
prune_expired_messages voice now_ms =
    let left = keep_if (λ m. not (leb total_lifetime_ms (age m now_ms))) voice.chat_messages in
    (with_messages voice left, not (length voice.chat_messages == length left))

unfoldable pub repaint_due : VoiceState → ℕ → Bool
unfolding age
repaint_due voice now_ms =
    any_of (λ m. leb hold_ms (age m now_ms) && ltb (age m now_ms) total_lifetime_ms)
      voice.chat_messages

-- The loop of `next_timeout_ms` from one message on.
unfoldable pub timeout_from : List VoiceChatMessage → ℕ → ℕ → ℕ
unfolding age
timeout_from [] now_ms timeout_ms = timeout_ms
timeout_from (m ∷ ms) now_ms timeout_ms =
    let a = age m now_ms in
    let rest = timeout_from ms now_ms (
      if ltb a hold_ms then min timeout_ms (hold_ms - a) else min timeout_ms repaint_interval_ms) in
    if leb total_lifetime_ms a then 0 else rest

unfoldable pub next_timeout_ms : VoiceState → ℕ → ℕ → ℕ
unfolding timeout_from
next_timeout_ms voice now_ms default_timeout_ms =
    timeout_from voice.chat_messages now_ms default_timeout_ms

module _ (J : JsonLib) where
  open J use {Json}

  unfoldable pub message_author_name : Json → Bytes → Bytes
  message_author_name message def =
      let nick : Bytes = elim (object_or_null J message (lit "member")) [
        | none ↦ []
        | some member ↦ string_or J member (lit "nick") []
      ] in
      if not (is_empty nick) then nick else elim (object_or_null J message (lit "author")) [
        | none ↦ def
        | some author ↦ display_name J author def
      ]

  unfoldable pub message_has_author_metadata : Json → Bool
  message_has_author_metadata message =
      let has_nick : Bool = elim (object_or_null J message (lit "member")) [
        | none ↦ false
        | some member ↦ not (is_empty (string_or J member (lit "nick") []))
      ] in
      has_nick || (elim (object_or_null J message (lit "author")) [ none ↦ false | some _ ↦ true ])

  -- The text `[attachment]` stands for a message with attachments and no text.
  unfoldable pub message_content : Json → Bytes
  message_content message =
      let content = collapse_whitespace (string_or J message (lit "content") []) in
      if not (is_empty content) then content else elim (J.find message (lit "attachments")) [
        | none ↦ []
        | some attachments ↦
            if J.is_array attachments && not (is_empty (J.elements attachments))
            then lit "[attachment]"
            else []
      ]

  unfoldable pub parse_chat_message : Json → ℕ → Option VoiceChatMessage
  parse_chat_message message observed_at_ms =
      let message_id = u64_or J message (lit "id") 0 in
      let normalized = message_content message in
      if message_id == 0
      then none
      else if is_empty normalized
      then none
      else some (record {
        id = message_id;
        author_id = elim (object_or_null J message (lit "author")) [
          | none ↦ 0
          | some author ↦ u64_or J author (lit "id") 0
        ];
        observed_at_ms = observed_at_ms;
        author_name = message_author_name message (lit "???");
        content = normalized;
      })

  -- The loop of `load_chat_history`, over the messages from the last to the first.
  unfoldable pub parse_all : List Json → ℕ → List VoiceChatMessage
  parse_all [] observed_at_ms = []
  parse_all (j ∷ js) observed_at_ms =
      let rest = parse_all js observed_at_ms in
      elim (parse_chat_message j observed_at_ms) [ none ↦ rest | some m ↦ m ∷ rest ]

  unfoldable pub load_chat_history : VoiceState → Json → ℕ → ℕ → VoiceState × Bool
  load_chat_history voice messages observed_at_ms max_messages =
      let loaded = newest max_messages (parse_all (reverse (J.elements messages)) observed_at_ms) in
      if not (J.is_array messages)
      then (with_messages voice [], false)
      else (with_messages voice loaded, not (is_empty loaded))

  unfoldable pub event_message_object : Json → Option Json
  event_message_object event = elim (object_or_null J event (lit "data")) [
    | none ↦ none
    | some event_data ↦ elim (object_or_null J event_data (lit "message")) [
      | none ↦ some event_data
      | some message ↦ some message
    ]
  ]

  -- MESSAGE_UPDATE: the fields of the author that the payload names.
  unfoldable pub update_author : VoiceChatMessage → Json → VoiceChatMessage
  update_author updated payload =
      let old = if is_empty updated.author_name then lit "???" else updated.author_name in
      let named = record updated { author_name = message_author_name payload old } in
      if message_has_author_metadata payload
      then (elim (object_or_null J payload (lit "author")) [
        | none ↦ named
        | some author ↦ record named { author_id = u64_or J author (lit "id") updated.author_id }
      ])
      else updated

  -- MESSAGE_UPDATE, when the content is known: a message with none is read anew.
  unfoldable pub store_update : VoiceState → Json → VoiceChatMessage → ℕ → ℕ → VoiceState × Bool
  store_update voice payload updated observed_at_ms max_messages =
      if is_empty updated.content
      then (elim (parse_chat_message payload observed_at_ms) [
        | none ↦ (voice, false)
        | some parsed ↦ upsert_chat_message voice parsed max_messages
      ])
      else upsert_chat_message voice updated max_messages

  unfoldable pub on_message_update : VoiceState → Json → ℕ → ℕ → VoiceState × Bool
  on_message_update voice payload observed_at_ms max_messages =
      let message_id = u64_or J payload (lit "id") 0 in
      let existing : VoiceChatMessage = elim (find_chat_message voice message_id) [
        | none ↦ new_message message_id
        | some m ↦ m
      ] in
      let updated = update_author (record existing { observed_at_ms = observed_at_ms }) payload in
      let content = message_content payload in
      if message_id == 0
      then (voice, false)
      else if contains J payload (lit "content") || contains J payload (lit "attachments")
      then (if is_empty content
          then remove_chat_message voice message_id
          else store_update voice payload (record updated { content = content }) observed_at_ms
              max_messages)
      else store_update voice payload updated observed_at_ms max_messages

  unfoldable pub on_message_create : VoiceState → Json → ℕ → ℕ → VoiceState × Bool
  on_message_create voice payload observed_at_ms max_messages =
      elim (parse_chat_message payload observed_at_ms) [
        | none ↦ (voice, false)
        | some message ↦ upsert_chat_message voice message max_messages
      ]

  unfoldable pub process_chat_event : Json → VoiceState → ℕ → ℕ → VoiceState × Bool
  process_chat_event event voice observed_at_ms max_messages =
      let evt = string_or J event (lit "evt") [] in
      if not (str_eq (string_or J event (lit "cmd") []) (lit "DISPATCH"))
      then (voice, false)
      else elim (event_message_object event) [
        | none ↦ (voice, false)
        | some payload ↦
            if str_eq evt (lit "MESSAGE_DELETE")
            then remove_chat_message voice (u64_or J payload (lit "id") 0)
            else if not (str_eq evt (lit "MESSAGE_CREATE"))
                && not (str_eq evt (lit "MESSAGE_UPDATE"))
            then (voice, false)
            else if str_eq evt (lit "MESSAGE_CREATE")
            then on_message_create voice payload observed_at_ms max_messages
            else on_message_update voice payload observed_at_ms max_messages
      ]
