-- ===== src/Config/Trimmed.antt =====
-- The line of an entry is read back as the entry, and a printed number as the number.
use sigaw.Prelude.{
  ℕ, ◌≡◌, refl, Bool, true, false, not, ◌&&◌, [], ◌∷◌, ◌++◌, none, some, arith, leb, Bytes,
  is_empty, All,
}
use sigaw.Config.Text.{
  trim_front, trim_back, trim_copy, split_at_equals, parse_key_value, is_bracketed, front,
  parse_section_header, first_section,
}
use sigaw.Config.Apply.{ParsedConfigFile}
use sigaw.Config.Save.{entry_line}
use sigaw.Config.File.{put, enter, is_skipped, parse_line}

-- No blanks at the ends.
pub record IsTrimmed (s : Bytes) : Type 0 where
  pub at_front : trim_front s ≡ s
  pub at_back : trim_back s ≡ s

pub trim_copy-IsTrimmed : (s : Bytes) → IsTrimmed s → trim_copy s ≡ s
unfolding trim_copy
trim_copy-IsTrimmed s h = rw (h.at_front, h.at_back) refl

-- The characters of keys.
abbrev pub IsKeyByte : ℕ → Type 0
IsKeyByte c = leb 95 c ≡ true

-- A key has neither blanks nor `=`.
pub record IsKey (key : Bytes) : Type 0 where
  pub bytes : All IsKeyByte key
  pub some_byte : is_empty key ≡ false

unfoldable pub all_key_bytes : Bytes → Bool
all_key_bytes [] = true
all_key_bytes (c ∷ s) = leb 95 c && all_key_bytes s

abbrev pub is_key : Bytes → Bool
is_key key = all_key_bytes key && not (is_empty key)

all_key_bytes-All : (key : Bytes) → all_key_bytes key ≡ true → All IsKeyByte key
unfolding all_key_bytes
all_key_bytes-All [] h = tt
all_key_bytes-All (c ∷ s) h = (ground (arith, h), all_key_bytes-All s (ground (arith, h)))

-- To check that a literal is a key.
pub is_key-IsKey : (key : Bytes) → is_key key ≡ true → IsKey key
is_key-IsKey key h = record {
  bytes = all_key_bytes-All key (ground (arith, h));
  some_byte = ground (arith, h);
}

trim_back-key :
    (key rest : Bytes)
    → All IsKeyByte key
    → trim_back rest ≡ rest
    → trim_back (key ++ rest) ≡ key ++ rest
unfolding trim_back
trim_back-key [] rest h e = e
trim_back-key (c ∷ key) rest h e = ground (arith, h.0, trim_back-key key rest h.1 e)

split_at_equals-key :
    (key rest : Bytes)
    → All IsKeyByte key
    → split_at_equals (key ++ (b'=' ∷ rest)) ≡ some (key, rest)
unfolding split_at_equals
split_at_equals-key [] rest h = refl
split_at_equals-key (c ∷ key) rest h = rw (split_at_equals-key key rest h.1) (ground (arith, h.0))

trim_back-equals : (s : Bytes) → trim_back s ≡ s → trim_back (b'=' ∷ s) ≡ b'=' ∷ s
unfolding trim_back
trim_back-equals s e = ground (arith, e)

-- The line of an entry: it has no blanks at its ends, begins no section, and is split at its `=`.
entry_line-IsTrimmed :
    (key value : Bytes) → IsKey key → IsTrimmed value → IsTrimmed (entry_line key value)
unfolding entry_line trim_front
entry_line-IsTrimmed [] value k v = absurd (cc (k.some_byte))
entry_line-IsTrimmed (c ∷ key) value k v = record {
  at_front = ground (arith, k.bytes.0);
  at_back = trim_back-key (c ∷ key) (b'=' ∷ value) k.bytes (trim_back-equals value v.at_back);
}

trim_back-key_alone : (key : Bytes) → All IsKeyByte key → trim_back key ≡ key
unfolding trim_back
trim_back-key_alone [] h = refl
trim_back-key_alone (c ∷ key) h = ground (arith, h.0, trim_back-key_alone key h.1)

key-IsTrimmed : (key : Bytes) → IsKey key → IsTrimmed key
unfolding trim_front
key-IsTrimmed [] k = absurd (cc (k.some_byte))
key-IsTrimmed (c ∷ key) k = record {
  at_front = ground (arith, k.bytes.0);
  at_back = trim_back-key_alone (c ∷ key) k.bytes;
}

entry_line-unbracketed :
    (key value : Bytes) → IsKey key → is_bracketed (entry_line key value) ≡ false
unfolding is_bracketed entry_line front
entry_line-unbracketed [] value k = absurd (cc (k.some_byte))
entry_line-unbracketed (c ∷ key) value k = ground (arith, k.bytes.0)

entry_line-kept : (key value : Bytes) → IsKey key → is_skipped (entry_line key value) ≡ false
unfolding is_skipped entry_line
entry_line-kept [] value k = absurd (cc (k.some_byte))
entry_line-kept (c ∷ key) value k = ground (arith, k.bytes.0)

parse_section_header-entry :
    (key value : Bytes)
    → IsKey key
    → IsTrimmed value
    → parse_section_header (entry_line key value) ≡ none
unfolding parse_section_header
parse_section_header-entry key value k v =
    rw
      (
        trim_copy-IsTrimmed (entry_line key value) (entry_line-IsTrimmed key value k v),
        entry_line-unbracketed key value k,
      )
      refl

parse_key_value-entry :
    (key value : Bytes)
    → IsKey key
    → IsTrimmed value
    → parse_key_value (entry_line key value) ≡ some (key, value)
unfolding parse_key_value entry_line
parse_key_value-entry key value k v =
    rw
      (
        parse_key_value,
        split_at_equals-key key value k.bytes,
        trim_copy-IsTrimmed key (key-IsTrimmed key k),
        k.some_byte,
        trim_copy-IsTrimmed value v,
      )
      refl

-- Outside of sections a line that an entry has enters it.
pub parse_line-entry :
    (key value : Bytes) (parsed : ParsedConfigFile)
    → IsKey key
    → IsTrimmed value
    → parse_line (entry_line key value) (first_section, parsed)
      ≡ (first_section, record parsed { global_entries = put key value parsed.global_entries })
unfolding parse_line enter first_section
parse_line-entry key value parsed k v =
    rw
      (
        trim_copy-IsTrimmed (entry_line key value) (entry_line-IsTrimmed key value k v),
        entry_line-kept key value k,
        parse_section_header-entry key value k v,
        trim_copy-IsTrimmed (entry_line key value) (entry_line-IsTrimmed key value k v),
        parse_key_value-entry key value k v,
      )
      refl
