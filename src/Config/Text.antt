-- ===== src/Config/Text.antt =====
-- The lines of a configuration file and the values in them: `trim_copy` and the `parse_` functions of
-- `Config` in src/common/config.h.
use sigaw.Prelude.{
  ℕ, ◌-◌, Bool, ◌&&◌, ◌||◌, not, List, [], ◌∷◌, Option, none, some, ltb, ◌==◌, if◌then◌else◌, Bytes,
  lit, str_eq, is_empty, length, take, drop, any_of,
}
use sigaw.Prelude.Int.{ℤ}
use sigaw.Text.{stoi}
use sigaw.Config.Types.{FloatLib}
use mathlib.Core.Option

-- The characters of `" \t\r\n"`.
abbrev is_blank : ℕ → Bool
is_blank c = c == 32 || c == 9 || c == 13 || c == 10

unfoldable pub trim_front : Bytes → Bytes
trim_front [] = []
trim_front (c ∷ s) = if is_blank c then trim_front s else c ∷ s

unfoldable pub trim_back : Bytes → Bytes
trim_back [] = []
trim_back (c ∷ s) = let rest = trim_back s in if is_blank c && is_empty rest then [] else c ∷ rest

unfoldable pub trim_copy : Bytes → Bytes
unfolding trim_front trim_back
trim_copy value = trim_back (trim_front value)

-- The line split at its first `=`.
unfoldable pub split_at_equals : Bytes → Option (Bytes × Bytes)
split_at_equals [] = none
split_at_equals (c ∷ s) =
    let rest = split_at_equals s in
    if c == b'=' then some ([], s) else Option.map (λ p. (c ∷ p.0, p.1)) rest

-- `none` is the return of `false`.
unfoldable pub parse_key_value : Bytes → Option (Bytes × Bytes)
unfolding split_at_equals trim_copy
parse_key_value line = elim (split_at_equals line) as (λ _. Option (Bytes × Bytes)) [
  | none ↦ none
  | some (before, behind) ↦
      let key = trim_copy before in if is_empty key then none else some (key, trim_copy behind)
]

pub data SectionKind : Type 0 where
  global profile other : SectionKind

pub record Section : Type 0 where
  pub kind : SectionKind
  pub name : Bytes

unfoldable pub first_section : Section
first_section = record { kind = global; name = [] }

-- `front()` and `back()`, of texts that are not empty where the program calls them.
unfoldable pub front : Bytes → ℕ
front [] = 0
front (c ∷ s) = c

back : Bytes → ℕ
back [] = 0
back (c ∷ []) = c
back (c ∷ d ∷ s) = back (d ∷ s)

-- The test of `parse_section_header` on the trimmed line.
unfoldable pub is_bracketed : Bytes → Bool
unfolding front back
is_bracketed trimmed =
    not (ltb (length trimmed) 2 || not (front trimmed == b'[') || not (back trimmed == b']'))

-- The section of the text between the brackets.
unfoldable pub section_of : Bytes → Section
unfolding trim_copy
section_of name =
    let profile_name = trim_copy (drop 8 name) in
    if str_eq (take 8 name) (lit "profile:")
    then record { kind = if is_empty profile_name then other else profile; name = profile_name }
    else record { kind = other; name = name }

-- `none` is the return of `false`.
unfoldable pub parse_section_header : Bytes → Option Section
unfolding is_bracketed section_of
parse_section_header line =
    let trimmed = trim_copy line in
    if is_bracketed trimmed
    then some (section_of (trim_copy (take (length trimmed - 2) (drop 1 trimmed))))
    else none

unfoldable pub parse_bool : Bytes → Bool → Bool
unfolding trim_copy
parse_bool value def =
    let lowered = trim_copy value in
    if is_empty lowered
    then def
    else str_eq lowered (lit "true") || str_eq lowered (lit "1") || str_eq lowered (lit "yes")

-- What a parse of text yields, or the default where the parse throws.
unfoldable pub or_default : {A : Type 0} → Option A → A → A
or_default none def = def
or_default (some a) def = a

unfoldable pub parse_float : (FL : FloatLib) → Bytes → FL.Float → FL.Float
unfolding trim_copy or_default
parse_float FL value def =
    let trimmed = trim_copy value in
    if is_empty trimmed then def else or_default (FL.stof trimmed) def

unfoldable pub parse_int : Bytes → ℤ → ℤ
unfolding trim_copy or_default
parse_int value def =
    let trimmed = trim_copy value in if is_empty trimmed then def else or_default (stoi trimmed) def

-- The keys that a profile may set.
abbrev pub overlay_keys : List Bytes
overlay_keys =
    lit "position"
    ∷ lit "scale"
    ∷ lit "opacity"
    ∷ lit "show_avatars"
    ∷ lit "show_channel_name"
    ∷ lit "show_voice_channel_chat"
    ∷ lit "compact"
    ∷ lit "max_visible_users"
    ∷ lit "max_visible_chat_messages"
    ∷ lit "visible"
    ∷ []

unfoldable pub is_overlay_key : Bytes → Bool
is_overlay_key key = any_of (λ k. str_eq key k) overlay_keys
