-- ===== src/Tests/Memory.antt =====
-- The theorems of Shm at concrete inputs.
use sigaw.Prelude.{ℕ, ◌+◌, ◌%◌, ◌^◌, ◌≡◌, refl, false, [], ◌∷◌, some, arith, lit, replicate}
use sigaw.Protocol.{SigawState, sigaw_magic, sigaw_version}
use sigaw.Chat.Defs.{new_message}
use sigaw.Voice.State.{VoiceChatMessage, VoiceState, new_user, no_voice}
use sigaw.Shm.Writer.{encode_user, bump_sequence, zero_message, update_shm}
use sigaw.Shm.Image.{IsLaidOut, Shows, update_shm-Shows}
use sigaw.Shm.Seqlock.{
  copying, accepted, read_step, World, Reachable, fresh, next, begins, ends, reads,
}
use sigaw.Shm.Consistent.{snapshot, read_step-consistent}

-- The mapping as `open` leaves it.
abbrev opened : SigawState
opened = record {
  header = record {
    magic = sigaw_magic;
    version = sigaw_version;
    sequence = 0;
    channel_name_len = 0;
    channel_name = replicate 40 0;
  };
  user_count = 0;
  chat_count = 0;
  users = replicate 64 (encode_user (new_user 0));
  chat_messages = replicate 8 zero_message;
}

opened-IsLaidOut : IsLaidOut opened
opened-IsLaidOut = record { name_size = refl; users_size = refl; chat_size = refl }

abbrev lobby : VoiceState
lobby = record no_voice {
  channel_id = lit "42";
  channel_name = lit "lobby";
  users = new_user 7 ∷ new_user 8 ∷ [];
}

update_shm-Shows_example :
    (t : SigawState) × (update_shm lobby (some opened) ≡ some t)
    × Shows lobby t
    × IsLaidOut t
    × (t.header.sequence ≡ (opened.header.sequence + 2) % 2 ^ 64)
unfolding lit
update_shm-Shows_example =
    update_shm-Shows lobby opened opened-IsLaidOut refl (omega arith) (omega arith)

-- A reader that copies the number of users only.
abbrev count_cell : ℕ → SigawState → ℕ
count_cell i s = s.user_count

-- The reader begins after a write that stores nothing, and has copied the number of users.
abbrev after_copy : World count_cell (0 ∷ [])
after_copy = record {
  state = bump_sequence (bump_sequence opened);
  writing = false;
  bumps = 2;
  reader = copying 0 2 [] ((0, 0) ∷ []);
}

Reachable-after_copy : Reachable count_cell (0 ∷ []) after_copy
unfolding read_step bump_sequence
Reachable-after_copy =
    next (next (next (next (next (fresh opened refl) (begins refl)) (ends refl)) reads) reads) reads

accepts_after_copy :
    read_step count_cell (0 ∷ []) after_copy.state after_copy.reader ≡ accepted 2 ((0, 0) ∷ [])
unfolding read_step bump_sequence
accepts_after_copy = refl

read_step-consistent_example :
    (after_copy.writing ≡ false)
    × (((0, 0) ∷ []) ≡ snapshot count_cell (0 ∷ []) after_copy.state (0 ∷ []))
    × (2 ≡ after_copy.state.header.sequence)
read_step-consistent_example =
    read_step-consistent count_cell (0 ∷ []) after_copy Reachable-after_copy (omega arith) 0 2 2 []
      ((0, 0) ∷ []) ((0, 0) ∷ []) refl accepts_after_copy

abbrev hello : VoiceChatMessage
hello = record (new_message 3) { author_name = lit "ann"; content = lit "hi" }
