-- ===== src/Tests/Voice.antt =====
-- The theorems of Voice and Json at concrete inputs, and tests of the voice events.
use mathlib.Core.Option
use mathlib.Core.Bool.{xor}
use sigaw.Prelude.{
  Distinct, ℕ, ◌≡◌, ◌≢◌, refl, true, false, List, [], ◌∷◌, none, some, arith, ◌==◌, if◌then◌else◌,
  lit, str_eq,
}
use sigaw.Json.Utils.{
  u64_value, string_value, u64_value-string_value, u64_or, object_or_null, find_field,
}
use sigaw.Text.{stoull, to_string}
use sigaw.Voice.State.{default_sync_config, initial_runtime, new_user}
use sigaw.Voice.Sync.Defs.{schedule_channel_sync, sync_pending_channel}
use sigaw.Voice.Ledger.{ledger}
use sigaw.Voice.Events.Users.{user_id}
use sigaw.Voice.Balanced.{Balanced, process_voice_event-Balanced, sync_pending_channel-Balanced}
use sigaw.Voice.Sync.Progress.{Settled, sync_at, scheduled_sync_settles}
use sigaw.Voice.Events.Defs.{
  refreshed, on_state_create, on_state_update, on_state_delete, on_speaking, on_user_event,
  process_voice_event,
}
use sigaw.Voice.Events.Effect.{
  user_at, set_speaking, on_state_create-user_at, on_state_update-user_at, on_state_delete-user_at,
  on_speaking-user_at,
}
use sigaw.Voice.Events.Invariant.{UsersOnly, on_user_event-UsersOnly}
use sigaw.Tests.Parameters.{
  Value, unsigned, str, obj, field, end, tree_json, tree_laws, lobby, lobby_ipc, user_seven,
  payload_seven, event_of, in_lobby, shut, shut_connection, in_lobby-Balanced,
}

abbrev seven_deleted : Value
seven_deleted = event_of (lit "VOICE_STATE_DELETE") payload_seven

process_voice_event-Balanced_example :
    let (t, (more, j), r) =
      process_voice_event tree_json
        (ledger shut_connection)
        seven_deleted
        (in_lobby, (lit "42" ∷ [], some shut))
        5
        default_sync_config in
    Balanced t more
    × Distinct user_id t.voice.users
    × (process_voice_event tree_json shut_connection seven_deleted
          (in_lobby, some shut)
          5
          default_sync_config
        ≡ (t, j, r))
process_voice_event-Balanced_example =
    process_voice_event-Balanced tree_json shut_connection seven_deleted in_lobby (lit "42" ∷ [])
      (some shut) 5 default_sync_config in_lobby-Balanced (omega arith)

sync_pending_channel-Balanced_example :
    let (t, (more, j), r) =
      sync_pending_channel
        (ledger shut_connection)
        (in_lobby, (lit "42" ∷ [], some shut))
        5
        default_sync_config in
    Balanced t more
    × (sync_pending_channel shut_connection (in_lobby, some shut) 5 default_sync_config ≡ (t, j, r))
sync_pending_channel-Balanced_example =
    sync_pending_channel-Balanced shut_connection in_lobby (lit "42" ∷ []) (some shut) 5
      default_sync_config in_lobby-Balanced (omega arith)

abbrev attempts : List ℕ
attempts = 10 ∷ 100000010 ∷ 200000010 ∷ 300000010 ∷ 400000010 ∷ []

lobby_ne_nil : lit "42" ≢ []
unfolding lit
lobby_ne_nil = λ e. cc

scheduled_sync_settles_example :
    Settled
      (lit "42")
      (sync_at lobby_ipc attempts default_sync_config (
        schedule_channel_sync lobby_ipc
          (initial_runtime, [])
          (lit "42")
          10
          default_sync_config
          true)).0
scheduled_sync_settles_example =
    scheduled_sync_settles lobby_ipc attempts default_sync_config (lit "42") 10 true initial_runtime
      [] (λ i. refl) lobby_ne_nil (omega arith) (omega arith)

on_user_event-UsersOnly_example :
    UsersOnly in_lobby (on_user_event tree_json in_lobby (lit "VOICE_STATE_DELETE") seven_deleted)
on_user_event-UsersOnly_example =
    on_user_event-UsersOnly tree_json in_lobby (lit "VOICE_STATE_DELETE") seven_deleted

payload_user : object_or_null tree_json payload_seven (lit "user") ≡ some user_seven
unfolding object_or_null find_field lit str_eq
payload_user = refl

seven_id : u64_or tree_json user_seven (lit "id") 0 ≡ 7
unfolding u64_or u64_value find_field stoull lit str_eq
seven_id = refl

on_state_delete-user_at_example :
    user_at 8 (on_state_delete tree_json in_lobby payload_seven).0.voice.users
    ≡ (if 8 == u64_or tree_json user_seven (lit "id") 0 then none else user_at 8 lobby.users)
on_state_delete-user_at_example =
    on_state_delete-user_at tree_json in_lobby payload_seven user_seven 8 payload_user (omega arith)

on_state_create-user_at_example :
    user_at 8 (on_state_create tree_json in_lobby payload_seven).0.voice.users
    ≡ (elim (user_at 8 lobby.users) [
      | none ↦
          if 8 == 7 then some (refreshed tree_json (new_user 7) payload_seven user_seven) else none
      | some v ↦ some v
    ])
on_state_create-user_at_example =
    on_state_create-user_at tree_json in_lobby payload_seven user_seven 8 7 payload_user seven_id
      (omega arith)

on_state_update-user_at_example :
    user_at 8 (on_state_update tree_json in_lobby payload_seven).0.voice.users
    ≡ user_at 8 lobby.users
on_state_update-user_at_example =
    on_state_update-user_at tree_json in_lobby payload_seven user_seven 8 7 payload_user seven_id
      (omega arith)

abbrev speaking_seven : Value
speaking_seven = obj (field (lit "user_id") (str (lit "7")) end)

speaker_id : u64_or tree_json speaking_seven (lit "user_id") 0 ≡ 7
unfolding u64_or u64_value find_field stoull lit str_eq
speaker_id = refl

on_speaking-user_at_example :
    let (s, r) = on_speaking tree_json in_lobby speaking_seven true in
    (user_at 7 s.voice.users ≡ Option.map (set_speaking true) (user_at 7 lobby.users))
    × (r.state_changed
        ≡ (elim (user_at 7 lobby.users) [ none ↦ false | some v ↦ xor v.speaking true ]))
on_speaking-user_at_example =
    on_speaking-user_at tree_json in_lobby speaking_seven true 7 7 speaker_id (omega arith)

id_read_back : u64_value tree_json (str (lit "18446744073709551615")) 0 ≡ 18446744073709551615
unfolding u64_value stoull lit
id_read_back = refl

printed_77 : to_string 77 ≡ lit "77"
unfolding to_string lit
printed_77 = refl

printed_text : lit "77" ≡ string_value tree_json (unsigned 77) []
unfolding string_value to_string lit
printed_text = refl

u64_value-string_value_example :
    u64_value tree_json (str (lit "77")) 0 ≡ u64_value tree_json (unsigned 77) 0
u64_value-string_value_example =
    u64_value-string_value tree_json tree_laws (unsigned 77) (str (lit "77")) 0 0 refl refl refl
      refl refl refl printed_text
