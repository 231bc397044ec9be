-- ===== src/Voice/Ipc.antt =====
-- The `Ipc` template parameter of src/daemon/voice_runtime.h and the calls of main.cpp on the
-- connection: its state, and each call as a function on it.
use sigaw.Prelude.{◌≡◌, Bool, not, List, ◌∷◌, Bytes, str_eq, keep_if}
use sigaw.Voice.State.{VoiceState, DiscordUserIdentity}

pub record IpcLib : Type 1 where
  pub Ipc : Type 0
  pub subscribe_voice : Ipc → Ipc
  pub subscribe_channel : Bytes → Ipc → Ipc
  pub unsubscribe_channel : Bytes → Ipc → Ipc
  pub get_selected_voice_channel : Ipc → VoiceState × Ipc
  pub local_user : Ipc → DiscordUserIdentity
  pub has_scope : Bytes → Ipc → Bool
  pub subscribe_channel_messages : Bytes → Ipc → Bool × Ipc
  pub unsubscribe_channel_messages : Bytes → Ipc → Ipc

-- A count of the channels that were subscribed, which a subscription joins and the end of it leaves, and which
-- stays over a query. Voice/Ledger has it for every connection, of the calls and not of their success.
pub record IpcLaws (I : IpcLib) : Type 0 where
  pub subscriptions : I.Ipc → List Bytes
  pub subscribed :
      (c : Bytes) (s : I.Ipc) → subscriptions (I.subscribe_channel c s) ≡ c ∷ subscriptions s
  pub unsubscribed :
      (c : Bytes) (s : I.Ipc)
      → subscriptions (I.unsubscribe_channel c s)
        ≡ keep_if (λ d. not (str_eq d c)) (subscriptions s)
  pub queried : (s : I.Ipc) → subscriptions (I.get_selected_voice_channel s).1 ≡ subscriptions s

-- It stays over those to the channel selection and to messages.
pub record ChatLaws (I : IpcLib) (L : IpcLaws I) : Type 0 where
  pub selection : (s : I.Ipc) → L.subscriptions (I.subscribe_voice s) ≡ L.subscriptions s
  pub followed :
      (c : Bytes) (s : I.Ipc)
      → L.subscriptions (I.subscribe_channel_messages c s).1 ≡ L.subscriptions s
  pub unfollowed :
      (c : Bytes) (s : I.Ipc)
      → L.subscriptions (I.unsubscribe_channel_messages c s) ≡ L.subscriptions s
