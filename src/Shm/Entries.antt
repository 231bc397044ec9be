-- ===== src/Shm/Entries.antt =====
-- What a reader finds in the entries that `set_user` and `set_chat_message` write.
use sigaw.Prelude.{◌≡◌, refl, ◌∙◌, take, length, arith, length-take}
use sigaw.Protocol.{sigaw_max_chat_author, sigaw_max_chat_content}
use sigaw.Voice.State.{VoiceUser, VoiceChatMessage}
use sigaw.Shm.Strings.{
  c_string, zeros, c_string-strncpy_terminated, length-strncpy_terminated, take-clamp_len,
  c_string-memcpy_terminated, length-memcpy_terminated, length-zeros,
}
use sigaw.Shm.Writer.{encode_user, encode_message}

-- In the entry of a user, the name and the avatar hash are the texts up to their first NUL, cut to the
-- bytes that leave room for a NUL, and the arrays have the sizes of protocol.h.
encode_user-c_string :
    (u : VoiceUser)
    → (c_string (encode_user u).username ≡ take 47 (c_string u.username))
      × (c_string (encode_user u).avatar_hash ≡ take 43 (c_string u.avatar))
      × (length (encode_user u).username ≡ 48)
      × (length (encode_user u).avatar_hash ≡ 44)
unfolding encode_user
encode_user-c_string u = (
  c_string-strncpy_terminated 47 u.username,
  c_string-strncpy_terminated 43 u.avatar,
  length-strncpy_terminated 47 u.username,
  length-strncpy_terminated 43 u.avatar,
)

-- In the entry of a message, the author's name and the text are those of the message up to their first
-- NUL, cut to the bytes that leave room for a NUL; the lengths recorded beside them are theirs, and the
-- arrays have the sizes of protocol.h.
encode_message-c_string :
    (m : VoiceChatMessage)
    → let e = encode_message m in
      (c_string e.author_name ≡ take 47 (c_string m.author_name))
      × (c_string e.content ≡ take 159 (c_string m.content))
      × (e.author_name_len ≡ length (c_string e.author_name))
      × (e.content_len ≡ length (c_string e.content))
      × (length e.author_name ≡ sigaw_max_chat_author)
      × (length e.content ≡ sigaw_max_chat_content)
unfolding encode_message
encode_message-c_string m =
    let author = c_string m.author_name in
    let content = c_string m.content in
    let (cut, len) = take-clamp_len 47 author in
    let (cut', len') = take-clamp_len 159 content in
    let author_read = c_string-memcpy_terminated 47 (zeros 48) m.author_name in
    let content_read = c_string-memcpy_terminated 159 (zeros 160) m.content in
    rw (cut, cut', len, len', author_read, content_read)
      (
        refl,
        refl,
        refl,
        refl,
        length-memcpy_terminated (zeros 48) (take 47 author)
              (omega (arith, length-take 47 author, length-zeros 48))
            ∙ length-zeros 48,
        length-memcpy_terminated (zeros 160) (take 159 content)
              (omega (arith, length-take 159 content, length-zeros 160))
            ∙ length-zeros 160,
      )
