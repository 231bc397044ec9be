-- ===== src/Json/Utils.antt =====
-- src/daemon/json_utils.h: reading fields of a Discord message with a default.
use sigaw.Prelude.{
  ℕ, ◌≡◌, Bool, true, false, not, ◌||◌, Option, none, some, arith, ◌==◌, if◌then◌else◌, map, Bytes,
  lit, str_eq, is_empty, [],
}
use sigaw.Prelude.Int.{ℤ, pos, negsuc}
use sigaw.Text.{to_string, to_string_int, stoull, tolower, stoull-to_string, is_empty-to_string}
use sigaw.Json.Interface.{JsonLib, JsonLaws}

-- `parsed >= 0 ? static_cast<uint64_t>(parsed) : def`.
abbrev u64_of_int : ℤ → ℕ → ℕ
u64_of_int (pos n) def = n
u64_of_int (negsuc n) def = def

-- `!= 0`.
abbrev int_ne_zero : ℤ → Bool
int_ne_zero (pos n) = not (n == 0)
int_ne_zero (negsuc n) = true

-- The words that `bool_value` takes for true and for false.
bool_word : Bytes → Bool → Bool
bool_word s def =
    if str_eq s (lit "true") || str_eq s (lit "1") || str_eq s (lit "yes") || str_eq s (lit "on")
    then true
    else if str_eq s (lit "false")
        || str_eq s (lit "0")
        || str_eq s (lit "no")
        || str_eq s (lit "off")
    then false
    else def

module _ (J : JsonLib) where
  open J use {Json}

  unfoldable pub find_field : Json → Bytes → Option Json
  find_field object key =
      if not (J.is_object object)
      then none
      else elim (J.find object key) [ none ↦ none | some v ↦ if J.is_null v then none else some v ]

  unfoldable pub object_or_null : Json → Bytes → Option Json
  object_or_null object key = elim (find_field object key) [
    | none ↦ none
    | some field ↦ if not (J.is_object field) then none else some field
  ]

  unfoldable pub string_value : Json → Bytes → Bytes
  string_value value def =
      if J.is_null value
      then def
      else if J.is_string value
      then J.get_string value
      else if J.is_number_unsigned value
      then to_string (J.get_u64 value)
      else if J.is_number_integer value
      then to_string_int (J.get_i64 value)
      else def

  unfoldable pub string_or : Json → Bytes → Bytes → Bytes
  string_or object key def = elim (find_field object key) [
    | none ↦ def
    | some field ↦ string_value field def
  ]

  -- The handler of the exceptions of `stoull` falls through to `return def`.
  unfoldable pub u64_value : Json → ℕ → ℕ
  u64_value value def =
      if J.is_number_unsigned value
      then J.get_u64 value
      else if J.is_number_integer value
      then u64_of_int (J.get_i64 value) def
      else if J.is_string value
      then (if is_empty (J.get_string value)
          then def
          else elim (stoull (J.get_string value)) [ none ↦ def | some n ↦ n ])
      else def

  unfoldable pub u64_or : Json → Bytes → ℕ → ℕ
  u64_or object key def = elim (find_field object key) [
    | none ↦ def
    | some field ↦ u64_value field def
  ]

  unfoldable pub bool_value : Json → Bool → Bool
  unfolding bool_word
  bool_value value def =
      if J.is_boolean value
      then J.get_bool value
      else if J.is_number_unsigned value
      then not (J.get_u64 value == 0)
      else if J.is_number_integer value
      then int_ne_zero (J.get_i64 value)
      else if J.is_string value
      then bool_word (map tolower (J.get_string value)) def
      else def

  unfoldable pub bool_or : Json → Bytes → Bool → Bool
  bool_or object key def = elim (find_field object key) [
    | none ↦ def
    | some field ↦ bool_value field def
  ]

  unfoldable pub account_name : Json → Bytes → Bytes
  account_name user def =
      let global = string_or user (lit "global_name") [] in
      let name = string_or user (lit "username") [] in
      if not (is_empty global) then global else if is_empty name then def else name

  -- `nullptr` for the user is `none`.
  unfoldable pub voice_display_name : Json → Option Json → Bytes → Bytes
  voice_display_name voice_state user def =
      let nick = string_or voice_state (lit "nick") [] in
      if not (is_empty nick) then nick else elim user [
        | some u ↦ account_name u def
        | none ↦ elim (object_or_null voice_state (lit "user")) [
          | some embedded ↦ account_name embedded def
          | none ↦ def
        ]
      ]

  unfoldable pub display_name : Json → Bytes → Bytes
  display_name user def = account_name user def

  -- Under the laws of the JSON library, a value that is an unsigned number, neither null nor a string, and
  -- a string, no number, that holds what the number prints as are read as one and the same number.
  pub u64_value-string_value :
      (laws : JsonLaws J) (number text : Json) (def d : ℕ)
      → J.is_number_unsigned number ≡ true
      → J.is_null number ≡ false
      → J.is_string number ≡ false
      → J.is_number_unsigned text ≡ false
      → J.is_number_integer text ≡ false
      → J.is_string text ≡ true
      → J.get_string text ≡ string_value number []
      → u64_value text def ≡ u64_value number d
  unfolding u64_value string_value
  u64_value-string_value laws number text def d a b c e f g h = ground (
    arith,
    stoull-to_string (J.get_u64 number) (laws.u64_lt number),
    is_empty-to_string (J.get_u64 number),
  )
