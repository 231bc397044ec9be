-- ===== src/Config/File.antt =====
-- `parse_file` of `Config` in src/common/config.h, from the lines of the file. The file itself, and that it
-- may not open, are outside the model: without it the lines are none.
use sigaw.Prelude.{Bool, true, List, [], ◌∷◌, none, some, ◌==◌, if◌then◌else◌, Bytes, str_eq}
use sigaw.Config.Text.{
  trim_copy, parse_key_value, global, profile, other, Section, first_section, parse_section_header,
  is_overlay_key,
}
use sigaw.Config.Apply.{Entries, ParsedConfigFile, lookup}

-- `map[key] = value`.
unfoldable pub put : {V : Type 0} → Bytes → V → List (Bytes × V) → List (Bytes × V)
put key value [] = (key, value) ∷ []
put key value (e ∷ es) =
    let rest = put key value es in if str_eq e.0 key then (key, value) ∷ es else e ∷ rest

-- `map[key]`, which enters an empty map at a key that is missing.
unfoldable pub entries_of : Bytes → List (Bytes × Entries) → Entries
unfolding lookup
entries_of name profiles = elim (lookup name profiles) as (λ _. Entries) [
  | none ↦ []
  | some es ↦ es
]

-- `trimmed.empty() || trimmed[0] == '#'`.
unfoldable pub is_skipped : Bytes → Bool
is_skipped [] = true
is_skipped (c ∷ s) = c == b'#'

unfoldable pub no_entries : ParsedConfigFile
no_entries = record { global_entries = []; profile_entries = [] }

-- The entry of a line in the section.
unfoldable pub enter : Section → Bytes → Bytes → ParsedConfigFile → ParsedConfigFile
unfolding put entries_of
enter section key value parsed = elim section.kind as (λ _. ParsedConfigFile) [
  | global ↦ record parsed { global_entries = put key value parsed.global_entries }
  | profile ↦
      if is_overlay_key key
      then record parsed {
        profile_entries =
            put section.name (put key value (entries_of section.name parsed.profile_entries))
              parsed.profile_entries;
      }
      else parsed
  | other ↦ parsed
]

-- The section and the entries behind a line.
unfoldable pub parse_line : Bytes → Section × ParsedConfigFile → Section × ParsedConfigFile
unfolding is_skipped enter
parse_line line (section, parsed) =
    let trimmed = trim_copy line in
    if is_skipped trimmed
    then (section, parsed)
    else elim (parse_section_header trimmed) as (λ _. Section × ParsedConfigFile) [
      | some next_section ↦ (next_section, parsed)
      | none ↦ elim (parse_key_value trimmed) as (λ _. Section × ParsedConfigFile) [
        | none ↦ (section, parsed)
        | some entry ↦ (section, enter section entry.0 entry.1 parsed)
      ]
    ]

unfoldable pub parse_lines : List Bytes → Section × ParsedConfigFile → Section × ParsedConfigFile
parse_lines [] at_end = at_end
parse_lines (line ∷ lines) now = parse_lines lines (parse_line line now)

unfoldable pub parse_file : List Bytes → ParsedConfigFile
unfolding no_entries
parse_file lines = (parse_lines lines (first_section, no_entries)).1
