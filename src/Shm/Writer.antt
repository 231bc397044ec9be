-- ===== src/Shm/Writer.antt =====
-- The methods of `ShmWriter` in src/daemon/shm_writer.h that write the mapped state, and `update_shm`
-- of src/daemon/main.cpp. `none` is a writer with no mapping, whose methods do nothing.
use sigaw.Prelude.{
  ℕ, zero, suc, ◌+◌, ◌%◌, ◌^◌, min, Bool, List, [], ◌∷◌, Option, ltb, leb, if◌then◌else◌, Bytes,
  is_empty, length, take, replicate, set,
}
use mathlib.Core.Option
use sigaw.Protocol.{
  SigawUser, SigawChatMessage, SigawState, sigaw_max_users, sigaw_max_chat_messages,
  sigaw_max_chat_author, sigaw_max_chat_content,
}
use sigaw.Voice.State.{VoiceUser, VoiceChatMessage, VoiceState}
use sigaw.Shm.Strings.{zeros, c_string, strncpy_terminated, memcpy_terminated, clamp_len}

abbrev pub ShmWriter : Type 0
ShmWriter = Option SigawState

-- A method on the mapped state.
abbrev pub mapped : (SigawState → SigawState) → ShmWriter → ShmWriter
mapped f w = Option.map f w

-- The sequence number, a 64-bit word, goes up by one.
unfoldable pub bump_sequence : SigawState → SigawState
bump_sequence s = record s {
  header = record s.header { sequence = (s.header.sequence + 1) % 2 ^ 64 };
}

unfoldable pub begin_write : ShmWriter → ShmWriter
unfolding bump_sequence
begin_write = mapped bump_sequence

unfoldable pub end_write : ShmWriter → ShmWriter
unfolding bump_sequence
end_write = mapped bump_sequence

-- The size of the array of a channel name.
abbrev pub channel_name_size : ℕ
channel_name_size = 40

unfoldable pub set_channel : Bytes → SigawState → SigawState
unfolding clamp_len
set_channel name s =
    let len = clamp_len channel_name_size (length (c_string name)) in
    record s {
      header = record s.header {
        channel_name = memcpy_terminated s.header.channel_name (take len (c_string name));
        channel_name_len = len;
      };
    }

-- A message of zeros: what `memset` leaves.
unfoldable pub zero_message : SigawChatMessage
zero_message = record {
  message_id = 0;
  author_id = 0;
  observed_at_ms = 0;
  author_name_len = 0;
  content_len = 0;
  author_name = zeros sigaw_max_chat_author;
  content = zeros sigaw_max_chat_content;
}

unfoldable pub clear_chat : SigawState → SigawState
clear_chat s = record s {
  chat_count = 0;
  chat_messages = replicate sigaw_max_chat_messages zero_message;
}

unfoldable pub clear_channel : SigawState → SigawState
unfolding clear_chat
clear_channel s = clear_chat (record s {
  header = record s.header { channel_name = set s.header.channel_name 0 0; channel_name_len = 0 };
  user_count = 0;
})

unfoldable pub set_user_count : ℕ → SigawState → SigawState
set_user_count count s = record s {
  user_count = if ltb sigaw_max_users count then sigaw_max_users else count;
}

unfoldable pub set_chat_count : ℕ → SigawState → SigawState
set_chat_count count s = record s {
  chat_count = if ltb sigaw_max_chat_messages count then sigaw_max_chat_messages else count;
}

abbrev flag : Bool → ℕ
flag b = if b then 1 else 0

-- The entry that `set_user` writes: every field of it.
unfoldable pub encode_user : VoiceUser → SigawUser
encode_user u = record {
  user_id = u.id;
  username = strncpy_terminated 47 u.username;
  avatar_hash = strncpy_terminated 43 u.avatar;
  speaking = flag u.speaking;
  self_mute = flag u.self_mute;
  self_deaf = flag u.self_deaf;
  server_mute = flag u.server_mute;
  server_deaf = flag u.server_deaf;
  suppress = 0;
}

unfoldable pub set_user : ℕ → VoiceUser → SigawState → SigawState
set_user index u s =
    if leb sigaw_max_users index then s else record s { users = set s.users index (encode_user u) }

-- The entry that `set_chat_message` writes.
unfoldable pub encode_message : VoiceChatMessage → SigawChatMessage
unfolding clamp_len
encode_message m =
    let author_len = clamp_len sigaw_max_chat_author (length (c_string m.author_name)) in
    let content_len = clamp_len sigaw_max_chat_content (length (c_string m.content)) in
    record {
      message_id = m.id;
      author_id = m.author_id;
      observed_at_ms = m.observed_at_ms;
      author_name_len = author_len;
      content_len = content_len;
      author_name =
          memcpy_terminated (zeros sigaw_max_chat_author)
            (take author_len (c_string m.author_name));
      content =
          memcpy_terminated (zeros sigaw_max_chat_content) (take content_len (c_string m.content));
    }

unfoldable pub set_chat_message : ℕ → VoiceChatMessage → SigawState → SigawState
set_chat_message index m s =
    if leb sigaw_max_chat_messages index
    then s
    else record s { chat_messages = set s.chat_messages index (encode_message m) }

-- The loop of `update_shm` over the users from the index `i` on, `n` of them.
unfoldable pub set_users : ℕ → ℕ → List VoiceUser → SigawState → SigawState
set_users i zero us s = s
set_users i (suc n) [] s = s
set_users i (suc n) (u ∷ us) s = set_users (suc i) n us (set_user i u s)

unfoldable pub set_chat_messages : ℕ → ℕ → List VoiceChatMessage → SigawState → SigawState
set_chat_messages i zero ms s = s
set_chat_messages i (suc n) [] s = s
set_chat_messages i (suc n) (m ∷ ms) s = set_chat_messages (suc i) n ms (set_chat_message i m s)

-- `std::min((uint32_t)size, (uint32_t)bound)`.
abbrev pub count_of : ℕ → ℕ → ℕ
count_of size bound = min (size % 2 ^ 32) bound

-- What `update_shm` writes between `begin_write` and `end_write`. The avatar requests that it makes
-- on the way do not touch the shared memory.
unfoldable pub write_voice : VoiceState → SigawState → SigawState
write_voice voice s =
    let count = count_of (length voice.users) sigaw_max_users in
    let chat_count = count_of (length voice.chat_messages) sigaw_max_chat_messages in
    if is_empty voice.channel_id
    then clear_channel s
    else set_chat_messages 0 chat_count voice.chat_messages (
        set_chat_count chat_count (
          clear_chat (
            set_users 0 count voice.users
              (set_user_count count (set_channel voice.channel_name s)))))

unfoldable pub update_shm : VoiceState → ShmWriter → ShmWriter
unfolding write_voice
update_shm voice w = end_write (mapped (write_voice voice) (begin_write w))
