-- ===== src/Config/Apply.antt =====
-- The entries of a configuration file applied to a configuration: `apply_entry`, `apply_entries`,
-- `any_profile_requests_chat` and `load_for_executable` of `Config` in src/common/config.h.
use sigaw.Prelude.{
  Bool, true, false, not, List, [], ◌∷◌, Option, none, some, ltb, if◌then◌else◌, Bytes, lit, str_eq,
  is_empty, any_of,
}
use sigaw.Prelude.Int.{ℤ, pos, negsuc}
use sigaw.Protocol.{sigaw_max_chat_messages}
use sigaw.Config.Types.{
  FloatLib, OverlayPosition, top_left, top_right, bottom_left, bottom_right, Config, default_config,
  requests_voice_channel_chat,
}
use sigaw.Config.Text.{trim_copy, parse_bool, parse_float, parse_int}

-- A map of the standard library, in the order of an iteration over it.
abbrev pub Entries : Type 0
Entries = List (Bytes × Bytes)

module _ {V : Type 0} where
  unfoldable pub lookup : Bytes → List (Bytes × V) → Option V
  lookup key [] = none
  lookup key (e ∷ es) = if str_eq e.0 key then some e.1 else lookup key es

-- `std::clamp(value, 1, SIGAW_MAX_CHAT_MESSAGES)`.
unfoldable pub clamp_messages : ℤ → ℤ
clamp_messages (negsuc n) = pos 1
clamp_messages (pos n) =
    if ltb n 1
    then pos 1
    else if ltb sigaw_max_chat_messages n
    then pos sigaw_max_chat_messages
    else pos n

unfoldable pub position_of : Bytes → OverlayPosition → OverlayPosition
position_of value position =
    if str_eq value (lit "top-left")
    then top_left
    else if str_eq value (lit "top-right")
    then top_right
    else if str_eq value (lit "bottom-left")
    then bottom_left
    else if str_eq value (lit "bottom-right")
    then bottom_right
    else position

-- The text of a credential, where there is one.
unfoldable pub credential_of : Bytes → Bytes → Bytes
credential_of value old = let trimmed = trim_copy value in if is_empty trimmed then old else trimmed

module _ {FL : FloatLib} where
  unfoldable pub apply_entry : Config FL → Bytes → Bytes → Bool → Config FL
  apply_entry cfg key value allow_daemon_keys =
      if str_eq key (lit "position")
      then record cfg { position = position_of value cfg.position }
      else if str_eq key (lit "scale")
      then record cfg { scale = parse_float FL value cfg.scale }
      else if str_eq key (lit "opacity")
      then record cfg { opacity = parse_float FL value cfg.opacity }
      else if str_eq key (lit "show_avatars")
      then record cfg { show_avatars = parse_bool value cfg.show_avatars }
      else if str_eq key (lit "show_channel_name")
      then record cfg { show_channel = parse_bool value cfg.show_channel }
      else if str_eq key (lit "show_voice_channel_chat")
      then record cfg { show_voice_channel_chat = parse_bool value cfg.show_voice_channel_chat }
      else if str_eq key (lit "compact")
      then record cfg { compact = parse_bool value cfg.compact }
      else if str_eq key (lit "max_visible_users")
      then record cfg { max_visible = parse_int value cfg.max_visible }
      else if str_eq key (lit "max_visible_chat_messages")
      then record cfg {
        max_visible_chat_messages = clamp_messages (parse_int value cfg.max_visible_chat_messages);
      }
      else if str_eq key (lit "visible")
      then record cfg { visible = parse_bool value cfg.visible }
      else if not allow_daemon_keys
      then cfg
      else if str_eq key (lit "client_id")
      then record cfg { client_id = credential_of value cfg.client_id }
      else if str_eq key (lit "client_secret")
      then record cfg { client_secret = credential_of value cfg.client_secret }
      else cfg

  unfoldable pub apply_entries : Config FL → Entries → Bool → Config FL
  apply_entries cfg [] allow_daemon_keys = cfg
  apply_entries cfg (e ∷ es) allow_daemon_keys =
      apply_entries (apply_entry cfg e.0 e.1 allow_daemon_keys) es allow_daemon_keys

-- What `parse_file` gives.
pub record ParsedConfigFile : Type 0 where
  pub global_entries : Entries
  pub profile_entries : List (Bytes × Entries)

unfoldable pub global_config : (FL : FloatLib) → ParsedConfigFile → Config FL
global_config FL parsed = apply_entries (default_config FL) parsed.global_entries true

unfoldable pub any_profile_requests_chat : FloatLib → ParsedConfigFile → Bool
any_profile_requests_chat FL parsed =
    let global_cfg = global_config FL parsed in
    any_of (λ e. requests_voice_channel_chat (apply_entries global_cfg e.1 false))
      parsed.profile_entries

-- `load_for_executable`, from the file as it is parsed.
unfoldable pub load_for_executable : (FL : FloatLib) → ParsedConfigFile → Bytes → Config FL
load_for_executable FL parsed executable_basename =
    let cfg = global_config FL parsed in
    if is_empty executable_basename
    then cfg
    else elim (lookup executable_basename parsed.profile_entries) as (λ _. Config FL) [
      | none ↦ cfg
      | some entries ↦ apply_entries cfg entries false
    ]
