-- ===== src/Tests/Settings.antt =====
-- The theorems of Config at concrete inputs, and what the code makes of a small file.
use sigaw.Prelude.{map, ◌++◌, ◌≡◌, ◌↔◌, refl, true, List, [], ◌∷◌, some, Bytes, lit, str_eq, any_of}
use sigaw.Config.Types.{default_config, requests_voice_channel_chat}
use sigaw.Config.Text.{
  first_section, trim_copy, trim_front, trim_back, parse_section_header, is_bracketed, section_of,
  parse_key_value, is_overlay_key,
}
use sigaw.Config.Apply.{
  Entries, lookup, apply_entries, any_profile_requests_chat, load_for_executable,
}
use sigaw.Config.File.{
  parse_file, parse_lines, parse_line, is_skipped, enter, put, entries_of, no_entries,
}
use sigaw.Config.Save.{serialized_global_entries, update_existing_file}
use sigaw.Config.Sections.{before_section, absent}
use sigaw.Config.Rewrite.{renewed, update_existing_file-renewed}
use sigaw.Config.Effect.{DistinctKeys, effective, apply_entries-effective}
use sigaw.Config.Parsed.{
  IsMap, parse_file-IsMap, IsMessageCount, load_for_executable-IsMessageCount,
}
use sigaw.Config.Profiles.{any_profile_requests_chat_iff}
use sigaw.Tests.Parameters.{text_float}

-- A global entry, and a profile with chat.
abbrev two_sections : List Bytes
two_sections =
    lit " max_visible_chat_messages = 99"
    ∷ lit "# a comment"
    ∷ lit "[profile: game ]"
    ∷ lit "show_voice_channel_chat=yes"
    ∷ lit "client_id=1"
    ∷ []

-- The credential of the profile is left out.
two_sections_parsed :
    (parse_file two_sections).profile_entries
    ≡ (lit "game", (lit "show_voice_channel_chat", lit "yes") ∷ []) ∷ []
unfolding parse_file parse_lines parse_line is_skipped enter put entries_of no_entries first_section
    trim_copy trim_front trim_back parse_section_header is_bracketed section_of parse_key_value
    is_overlay_key any_of str_eq lit lookup
two_sections_parsed = refl

parse_file-IsMap_example : IsMap (parse_file two_sections)
parse_file-IsMap_example = parse_file-IsMap two_sections

load_for_executable-IsMessageCount_example :
    IsMessageCount
      (load_for_executable text_float
        (parse_file two_sections)
        (lit "game")).max_visible_chat_messages
load_for_executable-IsMessageCount_example =
    load_for_executable-IsMessageCount text_float two_sections (lit "game")

any_profile_requests_chat_iff_example :
    (any_profile_requests_chat text_float (parse_file two_sections) ≡ true) ↔ (
      (name : Bytes) × (es : Entries) × (lookup name (parse_file two_sections).profile_entries
        ≡ some es)
      × (requests_voice_channel_chat (load_for_executable text_float (parse_file two_sections) name)
          ≡ true))
any_profile_requests_chat_iff_example = any_profile_requests_chat_iff text_float two_sections

-- Two entries of a map.
abbrev two_entries : Entries
two_entries = (lit "compact", lit "yes") ∷ (lit "client_id", lit "7") ∷ []

two_entries-DistinctKeys : DistinctKeys two_entries
unfolding lookup str_eq lit
two_entries-DistinctKeys = (refl, (refl, tt))

apply_entries-effective_example :
    apply_entries (default_config text_float) two_entries true
    ≡ effective (default_config text_float) two_entries true
apply_entries-effective_example =
    apply_entries-effective (default_config text_float) two_entries true two_entries-DistinctKeys

update_existing_file-renewed_example :
    let es = serialized_global_entries text_float (default_config text_float) in
    let (front, back) = before_section two_sections in
    update_existing_file text_float (default_config text_float) two_sections
    ≡ map (renewed es) front ++ (absent es front ++ back)
update_existing_file-renewed_example =
    update_existing_file-renewed text_float (default_config text_float) two_sections
