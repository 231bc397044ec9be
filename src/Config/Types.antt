-- ===== src/Config/Types.antt =====
-- `Config` of src/common/config.h. `float` is a parameter: the program stores such values, reads them
-- by `std::stof` and writes them by `std::to_string`.
use sigaw.Prelude.{Bool, true, false, ◌&&◌, Option, ltb, Bytes, lit}
use sigaw.Prelude.Int.{ℤ, pos, negsuc}

pub record FloatLib : Type 1 where
  pub Float : Type 0
  -- The literals 1.0f and 0.72f.
  pub one : Float
  pub default_opacity : Float
  -- `none` is an exception.
  pub stof : Bytes → Option Float
  pub float_to_string : Float → Bytes

pub data OverlayPosition : Type 0 where
  top_left top_right bottom_left bottom_right : OverlayPosition

-- `has_override_path_` and the path belong to the process, not to a configuration.
pub record Config (FL : FloatLib) : Type 0 where
  pub position : OverlayPosition
  pub scale : FL.Float
  pub opacity : FL.Float
  pub show_avatars : Bool
  pub show_channel : Bool
  pub show_voice_channel_chat : Bool
  pub compact : Bool
  pub max_visible : ℤ
  pub max_visible_chat_messages : ℤ
  pub client_id : Bytes
  pub client_secret : Bytes
  pub visible : Bool

unfoldable pub default_config : (FL : FloatLib) → Config FL
default_config FL = record {
  position = top_right;
  scale = FL.one;
  opacity = FL.default_opacity;
  show_avatars = true;
  show_channel = false;
  show_voice_channel_chat = false;
  compact = false;
  max_visible = pos 8;
  max_visible_chat_messages = pos 4;
  client_id = lit "1483519089719640105";
  client_secret = lit "HD2VNfR0HxOiLSMM842PMDDv-SbW1r6Z";
  visible = true;
}

-- `> 0`.
abbrev pub is_positive : ℤ → Bool
is_positive (pos n) = ltb 0 n
is_positive (negsuc n) = false

abbrev pub requests_voice_channel_chat : {FL : FloatLib} → Config FL → Bool
requests_voice_channel_chat c = c.show_voice_channel_chat && is_positive c.max_visible_chat_messages
