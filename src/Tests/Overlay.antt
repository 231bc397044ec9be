-- ===== src/Tests/Overlay.antt =====
-- The theorems of Visibility at concrete inputs, and the choices that the code makes for them.
use sigaw.Prelude.{ℕ, ◌≡◌, refl, [], ◌∷◌}
use sigaw.Protocol.{SigawUser, SigawState, sigaw_magic, sigaw_version}
use sigaw.Visibility.Sorting.{sort}
use sigaw.Visibility.Defs.{
  speaks, indices_from, contains, select_visible_user_indices, offer_all, offer,
  replace_last_silent,
}
use sigaw.Visibility.Priority.{IsChoice, select_visible_user_indices-IsChoice}

abbrev user : ℕ → SigawUser
user s = record {
  user_id = 1;
  username = [];
  avatar_hash = [];
  speaking = s;
  self_mute = 0;
  self_deaf = 0;
  server_mute = 0;
  server_deaf = 0;
  suppress = 0;
}

-- Users 1 and 4 of five speak.
abbrev five : SigawState
five = record {
  header = record {
    magic = sigaw_magic;
    version = sigaw_version;
    sequence = 2;
    channel_name_len = 0;
    channel_name = [];
  };
  user_count = 5;
  chat_count = 0;
  users = user 0 ∷ user 1 ∷ user 0 ∷ user 0 ∷ user 1 ∷ [];
  chat_messages = [];
}

speaker_replaces_last : select_visible_user_indices five 3 ≡ 0 ∷ 1 ∷ 4 ∷ []
unfolding select_visible_user_indices offer_all offer replace_last_silent speaks contains
    indices_from sort
speaker_replaces_last = refl

select_visible_user_indices-IsChoice_example : IsChoice five 3 (select_visible_user_indices five 3)
select_visible_user_indices-IsChoice_example = select_visible_user_indices-IsChoice five 3
