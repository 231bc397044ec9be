-- ===== src/Config/Store.antt =====
-- The configuration file: `default_file_contents`, `write_to_path`, `save` and `load` of `Config` in
-- src/common/config.h, from the text of the file. The file system takes part by whether the file opens
-- for reading and by what comes of writing to it.
use sigaw.Prelude.{
  ℕ, ◌==◌, ◌++◌, Bool, true, false, List, [], ◌∷◌, Option, none, some, if◌then◌else◌, Bytes, lit,
}
use sigaw.Text.{to_string_int}
use sigaw.Config.Types.{FloatLib, Config}
use sigaw.Config.Apply.{load_for_executable}
use sigaw.Config.File.{parse_file}
use sigaw.Config.Save.{position_name, bool_name, entry_line, update_existing_file}

-- Lines as they are written, each with a line feed behind it.
unfoldable pub joined : List Bytes → Bytes
joined [] = []
joined (line ∷ lines) = line ++ (10 ∷ joined lines)

-- A byte in front of the first line.
unfoldable pub onto_first : ℕ → List Bytes → List Bytes
onto_first c [] = (c ∷ []) ∷ []
onto_first c (line ∷ lines) = (c ∷ line) ∷ lines

-- The lines that a loop over `std::getline` reads: a line feed ends a line, and so does the end of the file
-- behind a byte.
unfoldable pub getlines : Bytes → List Bytes
unfolding onto_first
getlines [] = []
getlines (c ∷ text) = let rest = getlines text in if c == 10 then [] ∷ rest else onto_first c rest

-- What comes of writing the file: it does not open, the stream fails and leaves another text, or all is
-- written.
pub data WriteResult : Type 0 where
  refused : WriteResult
  broken : Bytes → WriteResult
  written : WriteResult

-- The text of the file, if it exists.
pub record Disk : Type 0 where
  pub text : Option Bytes
  pub readable : Bool
  pub writes : WriteResult

-- The lines that `default_file_contents` appends.
unfoldable pub default_lines : (FL : FloatLib) → Config FL → List Bytes
unfolding entry_line position_name bool_name
default_lines FL c =
    lit "# Sigaw configuration"
    ∷ lit "# Discord voice overlay for Linux (Vulkan + OpenGL)"
    ∷ lit "#"
    ∷ lit "# Position: top-left, top-right, bottom-left, bottom-right"
    ∷ entry_line (lit "position") (position_name c.position)
    ∷ []
    ∷ lit "# Scale multiplier (1.0 = default)"
    ∷ entry_line (lit "scale") (FL.float_to_string c.scale)
    ∷ []
    ∷ lit "# Overlay opacity (0.0 = transparent, 1.0 = opaque)"
    ∷ entry_line (lit "opacity") (FL.float_to_string c.opacity)
    ∷ []
    ∷ lit "# Show user avatars"
    ∷ entry_line (lit "show_avatars") (bool_name c.show_avatars)
    ∷ []
    ∷ lit "# Show channel name at the top"
    ∷ entry_line (lit "show_channel_name") (bool_name c.show_channel)
    ∷ []
    ∷ lit "# Show the latest voice channel chat messages under the user list"
    ∷ entry_line (lit "show_voice_channel_chat") (bool_name c.show_voice_channel_chat)
    ∷ []
    ∷ lit "# Compact mode (small icons, no usernames)"
    ∷ entry_line (lit "compact") (bool_name c.compact)
    ∷ []
    ∷ lit "# Maximum users to display"
    ∷ entry_line (lit "max_visible_users") (to_string_int c.max_visible)
    ∷ []
    ∷ lit "# Maximum voice channel chat messages to display"
    ∷ entry_line (lit "max_visible_chat_messages") (to_string_int c.max_visible_chat_messages)
    ∷ []
    ∷ lit "# Persisted overlay visibility (managed by sigaw-ctl)"
    ∷ entry_line (lit "visible") (bool_name c.visible)
    ∷ []
    ∷ lit "# Discord application credentials"
    ∷ lit "# Sigaw ships with public default credentials."
    ∷ lit "# Replace these if you want to use your own Discord application."
    ∷ entry_line (lit "client_id") c.client_id
    ∷ entry_line (lit "client_secret") c.client_secret
    ∷ []
    ∷ lit "# Optional exact executable-basename profiles."
    ∷ lit "# Matching is case-sensitive and uses the hooked process basename."
    ∷ lit "# On Wine/Proton, Sigaw matches the Windows game executable basename."
    ∷ lit "#"
    ∷ lit "# [profile:vkcube]"
    ∷ lit "# position=bottom-left"
    ∷ lit "# compact=true"
    ∷ lit "# show_voice_channel_chat=true"
    ∷ []

unfoldable pub default_file_contents : (FL : FloatLib) → Config FL → Bytes
unfolding default_lines joined
default_file_contents FL c = joined (default_lines FL c)

-- The output stream with this text: whether it is good, and the file.
unfoldable pub write_text : WriteResult → Bytes → Disk → Bool × Disk
write_text refused text disk = (false, disk)
write_text (broken left) text disk = (false, record disk { text = some left })
write_text written text disk = (true, record disk { text = some text })

unfoldable pub write_to_path : (FL : FloatLib) → Config FL → Disk → Bool × Disk
unfolding write_text default_file_contents update_existing_file joined getlines
write_to_path FL c disk = elim disk.text as (λ _. Bool × Disk) [
  | none ↦ write_text disk.writes (default_file_contents FL c) disk
  | some text ↦
      if disk.readable
      then write_text disk.writes (joined (update_existing_file FL c (getlines text))) disk
      else (false, disk)
]

unfoldable pub save : (FL : FloatLib) → Config FL → Disk → Bool × Disk
unfolding write_to_path
save FL c disk = write_to_path FL c disk

-- The lines that `parse_file` reads: none of a file that is missing or does not open.
unfoldable pub readable_lines : Disk → List Bytes
unfolding getlines
readable_lines disk = elim disk.text as (λ _. List Bytes) [
  | none ↦ []
  | some text ↦ if disk.readable then getlines text else []
]

unfoldable pub load : (FL : FloatLib) → Disk → Config FL
unfolding readable_lines
load FL disk = load_for_executable FL (parse_file (readable_lines disk)) []
