-- ===== src/Tests/Parameters.antt =====
-- A concrete JSON library (a tree of values) and a concrete connection (which records what was
-- subscribed and always answers with one channel), with the laws that the theorems suppose.
use sigaw.Prelude.{
  inl, inr, refl, ℕ, zero, suc, ◌^◌, ◌%◌, ◌<◌, refl, Bool, true, false, not, List, [], ◌∷◌, Option,
  none, some, arith, if◌then◌else◌, Bytes, lit, str_eq, is_empty, keep_if,
}
use sigaw.Prelude.Int.{ℤ, pos}
use sigaw.Json.Interface.{JsonLib, JsonLaws, JsonText}
use sigaw.Voice.State.{new_user, VoiceState, no_voice, VoiceRuntimeState, initial_runtime}
use sigaw.Config.Types.{FloatLib}
use sigaw.Voice.Balanced.{Balanced}
use sigaw.Discord.Inbox.{empty_inbox}
use sigaw.Discord.Wait.{DiscordIpc}
use sigaw.Discord.Connection.{discord_connection}
use sigaw.Voice.Ipc.{IpcLib}

mutual
  pub data Value : Type 0 where
    null : Value
    bool : Bool → Value
    unsigned : ℕ → Value
    int : ℤ → Value
    str : Bytes → Value
    arr : Items → Value
    obj : Fields → Value

  pub data Items : Type 0 where
    nil : Items
    cons : Value → Items → Items

  pub data Fields : Type 0 where
    end : Fields
    field : Bytes → Value → Fields → Fields

abbrev items : Items → List Value
items nil = []
items (cons v vs) = v ∷ items vs

abbrev field_at : Bytes → Fields → Option Value
field_at k end = none
field_at k (field j v fs) = if str_eq j k then some v else field_at k fs

abbrev value_find : Value → Bytes → Option Value
value_find (obj fs) k = field_at k fs
value_find _ k = none

abbrev value_u64 : Value → ℕ
value_u64 (unsigned n) = n % 2 ^ 64
value_u64 _ = 0

-- The tree of a message, as the library would hold it.
abbrev pub tree_json : JsonLib
tree_json = record {
  Json = Value;
  is_null = λ v. elim v [ null ↦ true | _ ↦ false ];
  is_object = λ v. elim v [ obj _ ↦ true | _ ↦ false ];
  is_array = λ v. elim v [ arr _ ↦ true | _ ↦ false ];
  is_string = λ v. elim v [ str _ ↦ true | _ ↦ false ];
  is_boolean = λ v. elim v [ bool _ ↦ true | _ ↦ false ];
  is_number_unsigned = λ v. elim v [ unsigned _ ↦ true | _ ↦ false ];
  is_number_integer = λ v. elim v [ unsigned _ ↦ true | int _ ↦ true | _ ↦ false ];
  get_string = λ v. elim v [ str s ↦ s | _ ↦ [] ];
  get_u64 = value_u64;
  get_i64 = λ v. elim v [ int i ↦ i | unsigned n ↦ pos n | _ ↦ pos 0 ];
  get_bool = λ v. elim v [ bool b ↦ b | _ ↦ false ];
  find = value_find;
  at = λ v k. elim (value_find v k) [ none ↦ null | some w ↦ w ];
  elements = λ v. elim v [ arr vs ↦ items vs | _ ↦ [] ];
}

value_u64-lt : (v : Value) → value_u64 v < 2 ^ 64
value_u64-lt (unsigned n) = omega arith
value_u64-lt _ = omega arith

pub tree_laws : JsonLaws tree_json
tree_laws = record { u64_lt = value_u64-lt }

-- The peer's answer, for a channel of two users.
abbrev pub lobby : VoiceState
lobby = record no_voice {
  channel_id = lit "42";
  channel_name = lit "lobby";
  users = new_user 7 ∷ new_user 8 ∷ [];
}

-- The state of the connection is the list of subscribed channels.
abbrev pub lobby_ipc : IpcLib
lobby_ipc = record {
  Ipc = List Bytes;
  subscribe_voice = λ s. s;
  subscribe_channel = λ c s. c ∷ s;
  unsubscribe_channel = λ c s. keep_if (λ d. not (str_eq d c)) s;
  get_selected_voice_channel = λ s. (lobby, s);
  local_user = λ s. record { id = 7; username = []; avatar = [] };
  has_scope = λ c s. true;
  subscribe_channel_messages = λ c s. (true, s);
  unsubscribe_channel_messages = λ c s. s;
}

-- The user 7 of the channel 42, and the payload of an event about that user.
abbrev pub user_seven : Value
user_seven = obj (field (lit "id") (str (lit "7")) (field (lit "username") (str (lit "ann")) end))

abbrev pub payload_seven : Value
payload_seven = obj (field (lit "user") user_seven end)

abbrev pub event_of : Bytes → Value → Value
event_of evt payload = obj (
    field (lit "cmd") (str (lit "DISPATCH"))
      (field (lit "evt") (str evt) (field (lit "data") payload end)))

-- The daemon in the channel 42.
abbrev pub in_lobby : VoiceRuntimeState
in_lobby = record initial_runtime { voice = lobby; subscribed_channel_id = lit "42" }

-- Numbers kept as their text.
abbrev pub text_float : FloatLib
text_float = record {
  Float = Bytes;
  one = lit "1.000000";
  default_opacity = lit "0.720000";
  stof = λ s. if is_empty s then none else some s;
  float_to_string = λ s. s;
}

abbrev items_of : List Value → Items
items_of [] = nil
items_of (v ∷ vs) = cons v (items_of vs)

abbrev fields_of : List (Bytes × Value) → Fields
fields_of [] = end
fields_of (f ∷ fs) = field f.0 f.1 (fields_of fs)

-- A peer's answer to AUTHENTICATE, with the scopes that were granted.
abbrev pub authenticated_reply : Value
authenticated_reply = obj (
    fields_of (
      (lit "cmd", str (lit "AUTHENTICATE"))
      ∷ (lit "nonce", str (lit "s-1"))
      ∷ (
        lit "data",
        obj (
            fields_of (
              (lit "scopes", arr (items_of (str (lit "rpc") ∷ str (lit "messages.read") ∷ [])))
              ∷ [])),
      )
      ∷ []))

-- Texts of one byte that stand for two messages, and an empty text for every value.
abbrev pub text_of_byte : Bytes → Option Value
text_of_byte (zero ∷ []) = some authenticated_reply
text_of_byte (suc zero ∷ []) = some (event_of (lit "VOICE_STATE_DELETE") payload_seven)
text_of_byte _ = none

abbrev pub tree_text : JsonText tree_json
tree_text = record {
  parse = text_of_byte;
  dump = λ v. [];
  string = str;
  number = unsigned;
  array = λ vs. arr (items_of vs);
  object = λ fs. obj (fields_of fs);
}

-- A connection of the program whose socket is closed: every call that needs it fails.
abbrev pub shut : DiscordIpc tree_json tree_text
shut = record {
  client_id = lit "1";
  fd = none;
  connected = false;
  authed = false;
  nonce_ctr = 0;
  inbox = empty_inbox tree_json;
  access_token = [];
  scopes = [];
}

abbrev pub shut_connection : IpcLib
shut_connection = discord_connection tree_json tree_text (λ n. [])

-- The channel 42 is the one that was subscribed.
pub in_lobby-Balanced : Balanced in_lobby (lit "42" ∷ [])
unfolding lit
in_lobby-Balanced = record {
  one_subscription = refl;
  sync_target = inl refl;
  voice_target = inr refl;
}
