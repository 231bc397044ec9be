-- ===== src/Json/Interface.antt =====
-- nlohmann::json, which src/daemon uses for every Discord message, is third-party code: its values
-- and the operations that the daemon calls are a parameter of the model. `JsonLaws` has what the
-- library's documentation says of them.
use sigaw.Prelude.{ℕ, ◌^◌, ◌<◌, Bool, true, false, List, Option, none, some, Bytes}
use sigaw.Prelude.Int.{ℤ}

pub record JsonLib : Type 1 where
  pub Json : Type 0
  pub is_null : Json → Bool
  pub is_object : Json → Bool
  pub is_array : Json → Bool
  pub is_string : Json → Bool
  pub is_boolean : Json → Bool
  pub is_number_unsigned : Json → Bool
  pub is_number_integer : Json → Bool
  -- `get<std::string>()`, `get<uint64_t>()`, `get<int64_t>()` and `get<bool>()`.
  pub get_string : Json → Bytes
  pub get_u64 : Json → ℕ
  pub get_i64 : Json → ℤ
  pub get_bool : Json → Bool
  -- `find(key)`, with `none` for `end()`, and the subscript of a constant value.
  pub find : Json → Bytes → Option Json
  pub at : Json → Bytes → Json
  -- The elements of an array, in order.
  pub elements : Json → List Json

-- `get<uint64_t>` is a 64-bit word.
pub record JsonLaws (J : JsonLib) : Type 0 where
  pub u64_lt : (j : J.Json) → J.get_u64 j < 2 ^ 64

-- `contains(key)`.
abbrev pub contains : (J : JsonLib) → J.Json → Bytes → Bool
contains J j key = elim (J.find j key) [ none ↦ false | some _ ↦ true ]

-- Texts and the values that the daemon builds: `json::parse` without exceptions, where `none` is a
-- discarded value, `dump()`, and the initializers of strings, numbers, arrays and objects.
pub record JsonText (J : JsonLib) : Type 0 where
  pub parse : Bytes → Option J.Json
  pub dump : J.Json → Bytes
  pub string : Bytes → J.Json
  pub number : ℕ → J.Json
  pub array : List J.Json → J.Json
  pub object : List (Bytes × J.Json) → J.Json
