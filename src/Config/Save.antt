-- ===== src/Config/Save.antt =====
-- `save` of `Config` in src/common/config.h where the file exists: `update_existing_file`, from the lines
-- of the file to the lines that are written back.
use sigaw.Prelude.{
  ℕ, suc, Bool, List, [], ◌∷◌, ◌++◌, Option, none, some, if◌then◌else◌, Bytes, lit, str_eq, any_of,
  take, drop, set, length,
}
use sigaw.Text.{to_string_int}
use sigaw.Config.Types.{
  FloatLib, OverlayPosition, top_left, top_right, bottom_left, bottom_right, Config,
}
use sigaw.Config.Text.{
  trim_copy, parse_key_value, global, profile, other, Section, first_section, parse_section_header,
  overlay_keys,
}
use sigaw.Config.File.{is_skipped}

unfoldable pub position_name : OverlayPosition → Bytes
position_name top_left = lit "top-left"
position_name top_right = lit "top-right"
position_name bottom_left = lit "bottom-left"
position_name bottom_right = lit "bottom-right"

abbrev pub known_global_keys : List Bytes
known_global_keys = overlay_keys ++ (lit "client_id" ∷ lit "client_secret" ∷ [])

unfoldable pub is_known_global_key : Bytes → Bool
is_known_global_key key = any_of (λ k. str_eq key k) known_global_keys

unfoldable pub bool_name : Bool → Bytes
bool_name value = if value then lit "true" else lit "false"

unfoldable pub entry_line : Bytes → Bytes → Bytes
entry_line key value = key ++ (b'=' ∷ value)

abbrev line_of : Bytes → Bytes → Bytes × Bytes
line_of key value = (key, entry_line key value)

-- Each known key with the line that `serialized_global_entries` has for it.
unfoldable pub serialized_global_entries : (FL : FloatLib) → Config FL → List (Bytes × Bytes)
unfolding position_name bool_name entry_line
serialized_global_entries FL c =
    line_of (lit "position") (position_name c.position)
    ∷ line_of (lit "scale") (FL.float_to_string c.scale)
    ∷ line_of (lit "opacity") (FL.float_to_string c.opacity)
    ∷ line_of (lit "show_avatars") (bool_name c.show_avatars)
    ∷ line_of (lit "show_channel_name") (bool_name c.show_channel)
    ∷ line_of (lit "show_voice_channel_chat") (bool_name c.show_voice_channel_chat)
    ∷ line_of (lit "compact") (bool_name c.compact)
    ∷ line_of (lit "max_visible_users") (to_string_int c.max_visible)
    ∷ line_of (lit "max_visible_chat_messages") (to_string_int c.max_visible_chat_messages)
    ∷ line_of (lit "visible") (bool_name c.visible)
    ∷ line_of (lit "client_id") c.client_id
    ∷ line_of (lit "client_secret") c.client_secret
    ∷ []

-- The scan of the lines: the section of the next line, the lines of known global keys (`global_key_lines`),
-- by key and index, and the line of the first section header, if one was seen (`first_section_line`).
pub record Scan : Type 0 where
  pub section : Section
  pub key_lines : List (Bytes × ℕ)
  pub first_section_line : Option ℕ

unfoldable pub scan_line : ℕ → Bytes → Scan → Scan
scan_line i line s =
    let trimmed = trim_copy line in
    if is_skipped trimmed then s else elim (parse_section_header trimmed) as (λ _. Scan) [
      | some next_section ↦ record s {
        section = next_section;
        first_section_line = elim s.first_section_line as (λ _. Option ℕ) [
          | none ↦ some i
          | some j ↦ some j
        ];
      }
      | none ↦ elim s.section.kind as (λ _. Scan) [
        | global ↦ elim (parse_key_value trimmed) as (λ _. Scan) [
          | none ↦ s
          | some entry ↦
              if is_known_global_key entry.0
              then record s { key_lines = s.key_lines ++ ((entry.0, i) ∷ []) }
              else s
        ]
        | profile ↦ s
        | other ↦ s
      ]
    ]

unfoldable pub scan_from : ℕ → List Bytes → Scan → Scan
unfolding scan_line
scan_from i [] s = s
scan_from i (line ∷ lines) s = scan_from (suc i) lines (scan_line i line s)

unfoldable pub scan_lines : List Bytes → Scan
unfolding scan_from
scan_lines lines =
    scan_from 0 lines
      (record { section = first_section; key_lines = []; first_section_line = none })

-- The lines of a key replaced by the text.
unfoldable pub set_key_lines : Bytes → Bytes → List (Bytes × ℕ) → List Bytes → List Bytes
set_key_lines key text [] lines = lines
set_key_lines key text (k ∷ ks) lines =
    set_key_lines key text ks (if str_eq k.0 key then set lines k.1 text else lines)

unfoldable pub rewrite_lines : List (Bytes × Bytes) → List (Bytes × ℕ) → List Bytes → List Bytes
unfolding set_key_lines
rewrite_lines [] key_lines lines = lines
rewrite_lines (e ∷ es) key_lines lines =
    rewrite_lines es key_lines (set_key_lines e.0 e.1 key_lines lines)

unfoldable pub missing_entries : List (Bytes × Bytes) → List (Bytes × ℕ) → List Bytes
missing_entries [] key_lines = []
missing_entries (e ∷ es) key_lines =
    let rest = missing_entries es key_lines in
    if any_of (λ k. str_eq k.0 e.0) key_lines then rest else e.1 ∷ rest

unfoldable pub update_existing_file : (FL : FloatLib) → Config FL → List Bytes → List Bytes
unfolding scan_lines rewrite_lines missing_entries
update_existing_file FL c lines =
    let scan = scan_lines lines in
    let entries = serialized_global_entries FL c in
    let rewritten = rewrite_lines entries scan.key_lines lines in
    let missing = missing_entries entries scan.key_lines in
    let insert_at = elim scan.first_section_line as (λ _. ℕ) [ none ↦ length lines | some i ↦ i ] in
    take insert_at rewritten ++ (missing ++ drop insert_at rewritten)
