-- ===== src/Config/Roundtrip.antt =====
-- A configuration that is saved to a new file is loaded as it was.
use sigaw.Prelude.{
  ℕ, ◌≡◌, refl, ◌∙◌, ap, Bool, true, false, [], none, some, arith, Bytes, lit, str_eq, is_empty,
}
use sigaw.Prelude.Int.{ℤ, pos, negsuc}
use sigaw.Text.{to_string_int, is_empty-to_string}
use sigaw.Text.Print.{IsInt, stoi-to_string_int}
use sigaw.Config.Types.{
  FloatLib, OverlayPosition, top_left, top_right, bottom_left, bottom_right, Config, default_config,
}
use sigaw.Config.Text.{trim_front, trim_back, trim_copy, parse_bool, parse_float, parse_int}
use sigaw.Config.Apply.{
  clamp_messages, position_of, credential_of, apply_entry, apply_entries, global_config,
  load_for_executable,
}
use sigaw.Config.File.{put}
use sigaw.Config.Save.{position_name, bool_name}
use sigaw.Config.Parsed.{IsMessageCount}
use sigaw.Config.Store.{
  default_file_contents, default_lines, Disk, written, write_text, write_to_path, readable_lines,
  save, load,
}
use sigaw.Config.Trimmed.{trim_copy-IsTrimmed}
use sigaw.Config.Lines.{getlines-joined, default_lines-IsLine}
use sigaw.Config.Items.{
  puts, items_of, IsExact, IsCredential, IsStorable, to_string_int-IsTrimmed, parse_file-default,
}

parse_bool-bool_name : (b old : Bool) → parse_bool (bool_name b) old ≡ b
unfolding parse_bool bool_name trim_copy trim_front trim_back lit str_eq
parse_bool-bool_name true old = refl
parse_bool-bool_name false old = refl

position_of-position_name : (p old : OverlayPosition) → position_of (position_name p) old ≡ p
unfolding position_of position_name lit str_eq
position_of-position_name top_left old = refl
position_of-position_name top_right old = refl
position_of-position_name bottom_left old = refl
position_of-position_name bottom_right old = refl

parse_float-IsExact :
    (FL : FloatLib) (x old : FL.Float)
    → IsExact FL x
    → parse_float FL (FL.float_to_string x) old ≡ x
unfolding parse_float
parse_float-IsExact FL x old h =
    rw (trim_copy-IsTrimmed (FL.float_to_string x) h.trimmed, h.some_byte, h.read) refl

is_empty-to_string_int : (z : ℤ) → is_empty (to_string_int z) ≡ false
unfolding to_string_int
is_empty-to_string_int (pos n) = is_empty-to_string n
is_empty-to_string_int (negsuc n) = refl

parse_int-to_string_int : (z old : ℤ) → IsInt z → parse_int (to_string_int z) old ≡ z
unfolding parse_int
parse_int-to_string_int z old h =
    rw
      (
        trim_copy-IsTrimmed (to_string_int z) (to_string_int-IsTrimmed z),
        is_empty-to_string_int z,
        stoi-to_string_int z h,
      )
      refl

credential_of-IsCredential : (s old : Bytes) → IsCredential s → credential_of s old ≡ s
unfolding credential_of
credential_of-IsCredential s old h = rw (trim_copy-IsTrimmed s h.trimmed, h.some_byte) refl

clamp_messages-IsMessageCount : (z : ℤ) → IsMessageCount z → clamp_messages z ≡ z
unfolding clamp_messages
clamp_messages-IsMessageCount (pos m) (n, e, low, high) =
    let same : m ≡ n = ap (λ z. elim z as (λ _. ℕ) [ pos k ↦ k | negsuc k ↦ 0 ]) e in
    ground (arith, same, low, high)
clamp_messages-IsMessageCount (negsuc m) (n, e, low, high) = absurd (cc (e))

IsMessageCount-IsInt : (z : ℤ) → IsMessageCount z → IsInt z
IsMessageCount-IsInt z (n, e, low, high) = rw e (omega (arith, high))

-- The entries, applied to the default configuration, set every field.
load-items :
    (FL : FloatLib) (c : Config FL)
    → IsStorable FL c
    → load_for_executable FL
        (record { global_entries = puts (items_of FL c) []; profile_entries = [] })
        []
      ≡ c
unfolding load_for_executable global_config apply_entries apply_entry items_of puts put lit str_eq
    default_config
load-items FL c p =
    let m = p.max_visible_chat_messages in
    λ i. record {
      position = position_of-position_name c.position top_right i;
      scale = parse_float-IsExact FL c.scale FL.one p.scale i;
      opacity = parse_float-IsExact FL c.opacity FL.default_opacity p.opacity i;
      show_avatars = parse_bool-bool_name c.show_avatars true i;
      show_channel = parse_bool-bool_name c.show_channel false i;
      show_voice_channel_chat = parse_bool-bool_name c.show_voice_channel_chat false i;
      compact = parse_bool-bool_name c.compact false i;
      max_visible = parse_int-to_string_int c.max_visible (pos 8) p.max_visible i;
      max_visible_chat_messages =
          (ap clamp_messages (
                parse_int-to_string_int c.max_visible_chat_messages (pos 4)
                  (IsMessageCount-IsInt c.max_visible_chat_messages m))
              ∙ clamp_messages-IsMessageCount c.max_visible_chat_messages m)
            i;
      client_id =
          credential_of-IsCredential c.client_id (default_config FL).client_id p.client_id i;
      client_secret =
          credential_of-IsCredential c.client_secret (default_config FL).client_secret
            p.client_secret i;
      visible = parse_bool-bool_name c.visible true i;
    }

save-new :
    (FL : FloatLib) (c : Config FL) (disk : Disk)
    → disk.text ≡ none
    → disk.writes ≡ written
    → save FL c disk ≡ (true, record disk { text = some (default_file_contents FL c) })
unfolding save write_to_path write_text
save-new FL c disk missing good = rw (missing, good) refl

load-new :
    (FL : FloatLib) (c : Config FL) (disk : Disk)
    → disk.readable ≡ true
    → IsStorable FL c
    → load FL (record disk { text = some (default_file_contents FL c) }) ≡ c
unfolding load readable_lines default_file_contents
load-new FL c disk readable p =
    rw
      (
        readable,
        getlines-joined (default_lines FL c) (default_lines-IsLine FL c p),
        parse_file-default FL c p,
      )
      (load-items FL c p)

-- Saving to a file that does not exist, where it can be written, succeeds, and then the configuration that
-- is loaded is the one that was saved. That is so if the two floating point numbers are such that their text
-- is one line without blanks at its ends and is read back as the number, if the limit of users is in the range of
-- `int` and that of messages one that is loaded, and if the credentials are neither empty nor begin or
-- end with a blank nor hold a line feed.
pub load-save :
    (FL : FloatLib) (c : Config FL) (disk : Disk)
    → disk.text ≡ none
    → disk.readable ≡ true
    → disk.writes ≡ written
    → IsStorable FL c
    → ((save FL c disk).0 ≡ true) × (load FL (save FL c disk).1 ≡ c)
load-save FL c disk missing readable good p =
    let e = save-new FL c disk missing good in
    (ap (λ o. o.0) e, ap (λ o. load FL o.1) e ∙ load-new FL c disk readable p)
