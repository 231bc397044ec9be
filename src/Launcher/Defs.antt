-- ===== src/Launcher/Defs.antt =====
-- `preload_contains` and `prepend_preload` of src/run/launcher_env.cpp. A position in the string is
-- the text from there on.
use sigaw.Prelude.{
  ℕ, zero, suc, Bool, true, false, ◌||◌, [], ◌∷◌, ◌++◌, ◌==◌, if◌then◌else◌, Bytes, str_eq,
  is_empty, length,
}
use sigaw.Text.{is_space}

unfoldable pub is_preload_separator : ℕ → Bool
is_preload_separator ch = ch == b':' || is_space ch

-- The loop `while (is_preload_separator(preload[pos])) ++pos`.
unfoldable pub skip_separators : Bytes → Bytes
skip_separators [] = []
skip_separators (c ∷ s) = if is_preload_separator c then skip_separators s else c ∷ s

-- `preload.substr(start, pos - start)` after the loop over the bytes that are no separators, and
-- the text that the loop leaves.
unfoldable pub token : Bytes → Bytes
token [] = []
token (c ∷ s) = if is_preload_separator c then [] else c ∷ token s

unfoldable pub after_token : Bytes → Bytes
after_token [] = []
after_token (c ∷ s) = if is_preload_separator c then c ∷ s else after_token s

-- The outer loop. Each round takes a byte at least, so the length is enough fuel.
unfoldable pub preload_contains_from : ℕ → Bytes → Bytes → Bool
preload_contains_from zero preload library_path = false
preload_contains_from (suc fuel) preload library_path =
    let start = skip_separators preload in
    let next = preload_contains_from fuel (after_token start) library_path in
    if is_empty start then false else if str_eq (token start) library_path then true else next

unfoldable pub preload_contains : Bytes → Bytes → Bool
unfolding preload_contains_from
preload_contains preload library_path =
    preload_contains_from (suc (length preload)) preload library_path

unfoldable pub prepend_preload : Bytes → Bytes → Bytes
prepend_preload preload library_path =
    if is_empty library_path || preload_contains preload library_path
    then preload
    else if is_empty preload
    then library_path
    else library_path ++ (b' ' ∷ preload)
