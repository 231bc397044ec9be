-- ===== src/Shm/Image.antt =====
-- What `update_shm` leaves in the shared memory is the image of the voice state.
use sigaw.Prelude.{
  ℕ, zero, suc, ◌+◌, ◌%◌, ◌^◌, min, ◌<◌, ◌≡◌, refl, ◌∙◌, ap, true, false, List, [], ◌∷◌, map, some,
  arith, Bytes, is_empty, length, take, replicate, length-take,
}
use native.Mathlib.Nat.{min-zero, zero-min, suc-min-suc}
use sigaw.Protocol.{SigawState, sigaw_max_users, sigaw_max_chat_messages}
use sigaw.Voice.State.{VoiceState}
use sigaw.Shm.Strings.{
  c_string, take-clamp_len, c_string-memcpy_terminated, length-memcpy_terminated, c_string-set_zero,
}
use sigaw.Shm.Writer.{
  begin_write, end_write, bump_sequence, channel_name_size, set_channel, zero_message, clear_chat,
  clear_channel, set_user_count, set_chat_count, encode_user, encode_message, count_of, write_voice,
  update_shm,
}
use sigaw.Shm.Fill.{fill, length-fill, take-fill_front, set_users-fill, set_chat_messages-fill}

-- The arrays of the state have the sizes that protocol.h gives them.
pub record IsLaidOut (s : SigawState) : Type 0 where
  pub name_size : length s.header.channel_name ≡ channel_name_size
  pub users_size : length s.users ≡ sigaw_max_users
  pub chat_size : length s.chat_messages ≡ sigaw_max_chat_messages

-- The state `t` shows the voice state: every user and message for which there is room, in order,
-- and the name cut to the bytes that fit.
pub record Shows (voice : VoiceState) (t : SigawState) : Type 0 where
  pub user_count : t.user_count ≡ min (length voice.users) sigaw_max_users
  pub users : take t.user_count t.users ≡ map encode_user (take sigaw_max_users voice.users)
  pub chat_count : t.chat_count ≡ min (length voice.chat_messages) sigaw_max_chat_messages
  pub messages :
      take t.chat_count t.chat_messages
      ≡ map encode_message (take sigaw_max_chat_messages voice.chat_messages)
  pub name : c_string t.header.channel_name ≡ take 39 (c_string voice.channel_name)
  pub name_len : t.header.channel_name_len ≡ length (c_string t.header.channel_name)

-- The state that `write_voice` leaves where a channel is selected.
abbrev filled : VoiceState → SigawState → SigawState
filled voice s =
    let n = count_of (length voice.users) sigaw_max_users in
    let k = count_of (length voice.chat_messages) sigaw_max_chat_messages in
    record {
      header = (set_channel voice.channel_name s).header;
      user_count = n;
      chat_count = k;
      users = fill encode_user 0 n voice.users s.users;
      chat_messages =
          fill encode_message 0 k voice.chat_messages
            (replicate sigaw_max_chat_messages zero_message);
    }

write_voice-filled :
    (voice : VoiceState) (s : SigawState)
    → is_empty voice.channel_id ≡ false
    → write_voice voice s ≡ filled voice s
unfolding write_voice set_user_count set_chat_count clear_chat set_channel
write_voice-filled voice s h =
    let n = count_of (length voice.users) sigaw_max_users in
    let k = count_of (length voice.chat_messages) sigaw_max_chat_messages in
    let named = set_user_count n (set_channel voice.channel_name s) in
    rw (h, set_users-fill n 0 voice.users named (omega arith))
      (set_chat_messages-fill k 0 voice.chat_messages _ (omega arith) ∙ ground arith)

set_channel-name :
    (name : Bytes) (s : SigawState)
    → length s.header.channel_name ≡ channel_name_size
    → let h = (set_channel name s).header in
      (c_string h.channel_name ≡ take 39 (c_string name))
      × (h.channel_name_len ≡ length (c_string h.channel_name))
      × (length h.channel_name ≡ channel_name_size)
      × (h.sequence ≡ s.header.sequence)
unfolding set_channel
set_channel-name name s e =
    let text = c_string name in
    let (cut, fits) = take-clamp_len 39 text in
    rw (cut, fits, c_string-memcpy_terminated 39 s.header.channel_name name)
      (
        refl,
        refl,
        length-memcpy_terminated s.header.channel_name (take 39 text)
              (omega (arith, length-take 39 text))
            ∙ e,
        refl,
      )

take-min {κ} : {A : Type κ} (n : ℕ) (xs : List A) → take (min (length xs) n) xs ≡ take n xs
take-min zero xs = rw (min-zero (length xs)) refl
take-min (suc n) [] = rw (zero-min (suc n)) refl
take-min (suc n) (x ∷ xs) = rw (suc-min-suc (length xs) n) (ap (◌∷◌ x) (take-min n xs))

bump_sequence-IsLaidOut : (s : SigawState) → IsLaidOut s → IsLaidOut (bump_sequence s)
unfolding bump_sequence
bump_sequence-IsLaidOut s l = record {
  name_size = l.name_size;
  users_size = l.users_size;
  chat_size = l.chat_size;
}

filled-Shows :
    (voice : VoiceState) (s : SigawState)
    → IsLaidOut s
    → length voice.users < 2 ^ 32
    → length voice.chat_messages < 2 ^ 32
    → Shows voice (bump_sequence (filled voice s)) × IsLaidOut (bump_sequence (filled voice s))
unfolding bump_sequence
filled-Shows voice s l few few_messages =
    let n = count_of (length voice.users) sigaw_max_users in
    let k = count_of (length voice.chat_messages) sigaw_max_chat_messages in
    let (name, name_len, size, seq) = set_channel-name voice.channel_name s l.name_size in
    let n_is : n ≡ min (length voice.users) sigaw_max_users = omega arith in
    let k_is : k ≡ min (length voice.chat_messages) sigaw_max_chat_messages = omega arith in
    (
      record {
        user_count = n_is;
        users =
            take-fill_front encode_user n voice.users s.users (omega (arith, l.users_size))
              (omega arith)
            ∙ ap (map encode_user) (rw n_is (take-min sigaw_max_users voice.users));
        chat_count = k_is;
        messages =
            take-fill_front encode_message k voice.chat_messages _ (omega arith) (omega arith)
            ∙ ap (map encode_message)
                (rw k_is (take-min sigaw_max_chat_messages voice.chat_messages));
        name = name;
        name_len = name_len;
      },
      record {
        name_size = size;
        users_size = length-fill encode_user n 0 voice.users s.users ∙ l.users_size;
        chat_size = length-fill encode_message k 0 voice.chat_messages _;
      },
    )

filled-sequence :
    (voice : VoiceState) (s : SigawState)
    → IsLaidOut s
    → (bump_sequence (filled voice (bump_sequence s))).header.sequence
      ≡ (s.header.sequence + 2) % 2 ^ 64
unfolding bump_sequence
filled-sequence voice s l =
    let named =
      set_channel-name voice.channel_name (bump_sequence s)
        (bump_sequence-IsLaidOut s l).name_size in
    omega (arith, named.3)

-- Where a channel is selected and the users and the messages number fewer than 2 ^ 32, `update_shm` leaves
-- the image of the voice state in a mapped state, whose arrays keep their sizes, and moves the
-- sequence number on by two: as many users and messages as there is room for, in their order, and
-- the channel name cut to the bytes that fit.
pub update_shm-Shows :
    (voice : VoiceState) (s : SigawState)
    → IsLaidOut s
    → is_empty voice.channel_id ≡ false
    → length voice.users < 2 ^ 32
    → length voice.chat_messages < 2 ^ 32
    → (t : SigawState) × (update_shm voice (some s) ≡ some t)
      × Shows voice t
      × IsLaidOut t
      × (t.header.sequence ≡ (s.header.sequence + 2) % 2 ^ 64)
unfolding update_shm begin_write end_write
update_shm-Shows voice s l h few few_messages =
    let (shows, laid) =
      filled-Shows voice (bump_sequence s) (bump_sequence-IsLaidOut s l) few few_messages in
    (
      bump_sequence (filled voice (bump_sequence s)),
      ap (λ t. some (bump_sequence t)) (write_voice-filled voice (bump_sequence s) h),
      shows,
      laid,
      filled-sequence voice s l,
    )

-- Where no channel is selected, `update_shm` leaves a mapped state that counts no user and no message
-- and whose channel name is empty, and moves the sequence number on by two.
update_shm-empty :
    (voice : VoiceState) (s : SigawState)
    → IsLaidOut s
    → is_empty voice.channel_id ≡ true
    → (t : SigawState) × (update_shm voice (some s) ≡ some t)
      × (t.user_count ≡ 0)
      × (t.chat_count ≡ 0)
      × (c_string t.header.channel_name ≡ [])
      × (t.header.sequence ≡ (s.header.sequence + 2) % 2 ^ 64)
unfolding update_shm begin_write end_write write_voice clear_channel clear_chat bump_sequence
update_shm-empty voice s l h =
    rw h (_, refl, refl, refl, c_string-set_zero s.header.channel_name, omega arith)
