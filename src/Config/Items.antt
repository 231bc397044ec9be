-- ===== src/Config/Items.antt =====
-- The lines of a new configuration file, read back by `parse_file`.
use sigaw.Prelude.{
  ◌≡◌, refl, ◌∙◌, ap, Bool, true, false, not, any_of, ◌==◌, ◌&&◌, List, [], ◌∷◌, some, map, arith,
  Bytes, lit, is_empty, All,
}
use sigaw.Prelude.Int.{ℤ}
use sigaw.Text.{to_string_int}
use sigaw.Text.Print.{IsInt, IsNumeral, to_string_int-IsNumeral}
use sigaw.Config.Types.{
  FloatLib, OverlayPosition, top_left, top_right, bottom_left, bottom_right, Config,
}
use sigaw.Config.Text.{trim_front, trim_back, trim_copy, first_section}
use sigaw.Config.Apply.{ParsedConfigFile}
use sigaw.Config.File.{put, no_entries, is_skipped, parse_line, parse_lines, parse_file}
use sigaw.Config.Save.{position_name, bool_name, entry_line}
use sigaw.Config.Parsed.{IsMessageCount}
use sigaw.Config.Store.{default_lines}
use sigaw.Config.Trimmed.{IsTrimmed, IsKey, is_key, all_key_bytes, is_key-IsKey, parse_line-entry}

-- A line of the file: a remark, or an entry.
pub data Item : Type 0 where
  remark : Bytes → Item
  entry : Bytes → Bytes → Item

unfoldable pub text_of : Item → Bytes
text_of (remark line) = line
text_of (entry key value) = entry_line key value

abbrev IsFine : Item → Type 0
IsFine (remark line) = is_skipped (trim_copy line) ≡ true
IsFine (entry key value) = IsKey key × IsTrimmed value

unfoldable pub puts : List Item → List (Bytes × Bytes) → List (Bytes × Bytes)
puts [] es = es
puts (remark line ∷ items) es = puts items es
puts (entry key value ∷ items) es = puts items (put key value es)

parse_line-remark :
    (line : Bytes) (parsed : ParsedConfigFile)
    → is_skipped (trim_copy line) ≡ true
    → parse_line line (first_section, parsed) ≡ (first_section, parsed)
unfolding parse_line
parse_line-remark line parsed h = rw h refl

parse_lines-items :
    (items : List Item) (parsed : ParsedConfigFile)
    → All IsFine items
    → parse_lines (map text_of items) (first_section, parsed)
      ≡ (first_section, record parsed { global_entries = puts items parsed.global_entries })
unfolding parse_lines text_of puts
parse_lines-items [] parsed h = refl
parse_lines-items (remark line ∷ items) parsed h =
    ap (parse_lines (map text_of items)) (parse_line-remark line parsed h.0)
    ∙ parse_lines-items items parsed h.1
parse_lines-items (entry key value ∷ items) parsed h =
    ap (parse_lines (map text_of items)) (parse_line-entry key value parsed h.0.0 h.0.1)
    ∙ parse_lines-items items
        (record parsed { global_entries = put key value parsed.global_entries }) h.1

unfoldable pub items_of : (FL : FloatLib) → Config FL → List Item
items_of FL c =
    remark (lit "# Sigaw configuration")
    ∷ remark (lit "# Discord voice overlay for Linux (Vulkan + OpenGL)")
    ∷ remark (lit "#")
    ∷ remark (lit "# Position: top-left, top-right, bottom-left, bottom-right")
    ∷ entry (lit "position") (position_name c.position)
    ∷ remark []
    ∷ remark (lit "# Scale multiplier (1.0 = default)")
    ∷ entry (lit "scale") (FL.float_to_string c.scale)
    ∷ remark []
    ∷ remark (lit "# Overlay opacity (0.0 = transparent, 1.0 = opaque)")
    ∷ entry (lit "opacity") (FL.float_to_string c.opacity)
    ∷ remark []
    ∷ remark (lit "# Show user avatars")
    ∷ entry (lit "show_avatars") (bool_name c.show_avatars)
    ∷ remark []
    ∷ remark (lit "# Show channel name at the top")
    ∷ entry (lit "show_channel_name") (bool_name c.show_channel)
    ∷ remark []
    ∷ remark (lit "# Show the latest voice channel chat messages under the user list")
    ∷ entry (lit "show_voice_channel_chat") (bool_name c.show_voice_channel_chat)
    ∷ remark []
    ∷ remark (lit "# Compact mode (small icons, no usernames)")
    ∷ entry (lit "compact") (bool_name c.compact)
    ∷ remark []
    ∷ remark (lit "# Maximum users to display")
    ∷ entry (lit "max_visible_users") (to_string_int c.max_visible)
    ∷ remark []
    ∷ remark (lit "# Maximum voice channel chat messages to display")
    ∷ entry (lit "max_visible_chat_messages") (to_string_int c.max_visible_chat_messages)
    ∷ remark []
    ∷ remark (lit "# Persisted overlay visibility (managed by sigaw-ctl)")
    ∷ entry (lit "visible") (bool_name c.visible)
    ∷ remark []
    ∷ remark (lit "# Discord application credentials")
    ∷ remark (lit "# Sigaw ships with public default credentials.")
    ∷ remark (lit "# Replace these if you want to use your own Discord application.")
    ∷ entry (lit "client_id") c.client_id
    ∷ entry (lit "client_secret") c.client_secret
    ∷ remark []
    ∷ remark (lit "# Optional exact executable-basename profiles.")
    ∷ remark (lit "# Matching is case-sensitive and uses the hooked process basename.")
    ∷ remark (lit "# On Wine/Proton, Sigaw matches the Windows game executable basename.")
    ∷ remark (lit "#")
    ∷ remark (lit "# [profile:vkcube]")
    ∷ remark (lit "# position=bottom-left")
    ∷ remark (lit "# compact=true")
    ∷ remark (lit "# show_voice_channel_chat=true")
    ∷ []

-- No line feed.
abbrev pub is_line : Bytes → Bool
is_line s = not (any_of (λ c. c == 10) s)

-- A text of one line that is trimmed and that `stof` reads as the number it was printed from.
pub record IsExact (FL : FloatLib) (x : FL.Float) : Type 0 where
  pub trimmed : IsTrimmed (FL.float_to_string x)
  pub some_byte : is_empty (FL.float_to_string x) ≡ false
  pub one_line : is_line (FL.float_to_string x) ≡ true
  pub read : FL.stof (FL.float_to_string x) ≡ some x

pub record IsCredential (s : Bytes) : Type 0 where
  pub trimmed : IsTrimmed s
  pub one_line : is_line s ≡ true
  pub some_byte : is_empty s ≡ false

-- The numbers are such that their text stands for them, and the credentials are neither empty nor do they
-- begin or end with a blank or hold a line feed.
pub record IsStorable (FL : FloatLib) (c : Config FL) : Type 0 where
  pub scale : IsExact FL c.scale
  pub opacity : IsExact FL c.opacity
  pub max_visible : IsInt c.max_visible
  pub max_visible_chat_messages : IsMessageCount c.max_visible_chat_messages
  pub client_id : IsCredential c.client_id
  pub client_secret : IsCredential c.client_secret

position_name-IsTrimmed : (p : OverlayPosition) → IsTrimmed (position_name p)
unfolding position_name trim_front trim_back lit
position_name-IsTrimmed top_left = record { at_front = refl; at_back = refl }
position_name-IsTrimmed top_right = record { at_front = refl; at_back = refl }
position_name-IsTrimmed bottom_left = record { at_front = refl; at_back = refl }
position_name-IsTrimmed bottom_right = record { at_front = refl; at_back = refl }

bool_name-IsTrimmed : (b : Bool) → IsTrimmed (bool_name b)
unfolding bool_name trim_front trim_back lit
bool_name-IsTrimmed true = record { at_front = refl; at_back = refl }
bool_name-IsTrimmed false = record { at_front = refl; at_back = refl }

numeral-IsTrimmed : (s : Bytes) → All IsNumeral s → IsTrimmed s
unfolding trim_front trim_back
numeral-IsTrimmed [] h = record { at_front = refl; at_back = refl }
numeral-IsTrimmed (c ∷ s) h = record {
  at_front = ground (arith, h.0);
  at_back = ground (arith, h.0, (numeral-IsTrimmed s h.1).at_back);
}

pub to_string_int-IsTrimmed : (z : ℤ) → IsTrimmed (to_string_int z)
to_string_int-IsTrimmed z = numeral-IsTrimmed (to_string_int z) (to_string_int-IsNumeral z)

unfoldable pub values_of : List Item → List Bytes
values_of [] = []
values_of (remark line ∷ items) = values_of items
values_of (entry key value ∷ items) = value ∷ values_of items

-- The remarks are skipped, and the keys are keys.
test_items : List Item → Bool
test_items [] = true
test_items (remark line ∷ items) = is_skipped (trim_copy line) && test_items items
test_items (entry key value ∷ items) = is_key key && test_items items

test_items-IsFine :
    (items : List Item)
    → test_items items ≡ true
    → All IsTrimmed (values_of items)
    → All IsFine items
unfolding test_items values_of
test_items-IsFine [] h t = tt
test_items-IsFine (remark line ∷ items) h t =
    (ground (arith, h), test_items-IsFine items (ground (arith, h)) t)
test_items-IsFine (entry key value ∷ items) h t =
    ((is_key-IsKey key (ground (arith, h)), t.0), test_items-IsFine items (ground (arith, h)) t.1)

items_of-IsFine : (FL : FloatLib) (c : Config FL) → IsStorable FL c → All IsFine (items_of FL c)
unfolding items_of test_items values_of is_skipped trim_copy trim_front trim_back lit all_key_bytes
items_of-IsFine FL c p = test_items-IsFine (items_of FL c) refl (
  position_name-IsTrimmed c.position,
  (
    p.scale.trimmed,
    (
      p.opacity.trimmed,
      (
        bool_name-IsTrimmed c.show_avatars,
        (
          bool_name-IsTrimmed c.show_channel,
          (
            bool_name-IsTrimmed c.show_voice_channel_chat,
            (
              bool_name-IsTrimmed c.compact,
              (
                to_string_int-IsTrimmed c.max_visible,
                (
                  to_string_int-IsTrimmed c.max_visible_chat_messages,
                  (
                    bool_name-IsTrimmed c.visible,
                    (p.client_id.trimmed, (p.client_secret.trimmed, tt)),
                  ),
                ),
              ),
            ),
          ),
        ),
      ),
    ),
  ),
)

-- What the file holds is what was saved.
pub parse_file-default :
    (FL : FloatLib) (c : Config FL)
    → IsStorable FL c
    → parse_file (default_lines FL c)
      ≡ record { global_entries = puts (items_of FL c) []; profile_entries = [] }
unfolding parse_file default_lines items_of text_of no_entries
parse_file-default FL c p =
    ap (λ o. o.1) (parse_lines-items (items_of FL c) no_entries (items_of-IsFine FL c p))
