-- ===== src/Config/Parsed.antt =====
-- What `parse_file` leaves are maps, and what a configuration loaded from them keeps within bounds.
use sigaw.Prelude.{
  ℕ, ◌≤◌, ◌≡◌, refl, sym, ◌∙◌, ap, Bool, true, false, List, [], ◌∷◌, none, some, arith,
  if◌then◌else◌, Bytes, lit, str_eq, str_eq_iff, is_empty, ltb, if_rule, Option_rule, subst, All,
  take, drop, length, ◌-◌,
}
use sigaw.Prelude.Int.{ℤ, pos, negsuc}
use sigaw.Protocol.{sigaw_max_chat_messages}
use sigaw.Config.Types.{FloatLib, Config, default_config}
use sigaw.Config.Text.{
  trim_copy, parse_key_value, SectionKind, global, profile, other, Section, first_section,
  is_bracketed, section_of, parse_section_header, is_overlay_key,
}
use sigaw.Config.Apply.{
  Entries, ParsedConfigFile, lookup, clamp_messages, apply_entries, global_config,
  load_for_executable,
}
use sigaw.Config.File.{
  put, entries_of, no_entries, is_skipped, enter, parse_line, parse_lines, parse_file,
}
use sigaw.Config.Effect.{DistinctKeys, effective, apply_entries-effective}

module _ {V : Type 0} where
  -- A map after a store: the value at its key, and what was there at the others.
  pub lookup-put :
      (key : Bytes) (v : V) (es : List (Bytes × V)) (k : Bytes)
      → lookup k (put key v es) ≡ (if str_eq key k then some v else lookup k es)
  unfolding lookup put
  lookup-put key v [] k = refl
  lookup-put key v (e ∷ es) k =
      let rest = lookup-put key v es k in
      let same : str_eq e.0 key ≡ true → str_eq e.0 k ≡ str_eq key k =
        λ h. ap (λ s. str_eq s k) ((str_eq_iff e.0 key).0 h) in
      let clash : str_eq e.0 k ≡ true → str_eq key k ≡ true → str_eq e.0 key ≡ true =
        λ h g. (str_eq_iff e.0 key).1 ((str_eq_iff e.0 k).0 h ∙ sym ((str_eq_iff key k).0 g)) in
      ground (arith, rest, same, clash)

  pub DistinctKeys-put :
      (key : Bytes) (v : V) (es : List (Bytes × V)) → DistinctKeys es → DistinctKeys (put key v es)
  unfolding lookup put
  DistinctKeys-put key v [] d = (refl, tt)
  DistinctKeys-put key v (e ∷ es) d =
      if_rule DistinctKeys (str_eq e.0 key) _ _
        (λ h. (subst (λ k. lookup k es ≡ none) ((str_eq_iff e.0 key).0 h) d.0, d.1))
        (λ h. (
          ground (
            arith,
            h,
            lookup-put key v es e.0,
            d.0,
            λ (g : str_eq key e.0 ≡ true). (str_eq_iff e.0 key).1 (sym ((str_eq_iff key e.0).0 g)),
          ),
          DistinctKeys-put key v es d.1,
        ))

  All-put :
      (P : V → Type 0) (key : Bytes) (v : V) (es : List (Bytes × V))
      → P v
      → All (λ e. P e.1) es
      → All (λ e. P e.1) (put key v es)
  unfolding put
  All-put P key v [] p h = (p, tt)
  All-put P key v (e ∷ es) p h =
      if_rule (All (λ e. P e.1)) (str_eq e.0 key) _ _ (λ _. (p, h.1))
        (λ _. (h.0, All-put P key v es p h.1))

-- No key twice: among the global entries, among the profiles, and in each profile. No profile is without
-- a name.
pub record IsMap (parsed : ParsedConfigFile) : Type 0 where
  pub globals : DistinctKeys parsed.global_entries
  pub names : DistinctKeys parsed.profile_entries
  pub named : lookup [] parsed.profile_entries ≡ none
  pub profiles : All (λ e. DistinctKeys e.1) parsed.profile_entries

pub All-lookup :
    (P : Entries → Type 0) (name : Bytes) (ps : List (Bytes × Entries)) (es : Entries)
    → All (λ e. P e.1) ps
    → lookup name ps ≡ some es
    → P es
unfolding lookup
All-lookup P name [] es h e = absurd cc
All-lookup P name (p ∷ ps) es h e =
    if_rule (λ o. o ≡ some es → P es) (str_eq p.0 name) _ _
      (λ _ g. subst P (ap (λ o. elim o as (λ _. Entries) [ none ↦ p.1 | some x ↦ x ]) g) h.0)
      (λ _ g. All-lookup P name ps es h.1 g) e

entries_of-DistinctKeys :
    (name : Bytes) (ps : List (Bytes × Entries))
    → All (λ e. DistinctKeys e.1) ps
    → DistinctKeys (entries_of name ps)
unfolding entries_of
entries_of-DistinctKeys name ps h =
    Option_rule DistinctKeys (lookup name ps) _ _ (λ _. tt)
      (λ es e. All-lookup DistinctKeys name ps es h e)

-- The section of a profile has a name.
abbrev IsNamed : Section → Type 0
IsNamed section = section.kind ≡ profile → is_empty section.name ≡ false

profile_if-named :
    (name : Bytes) → (if is_empty name then other else profile) ≡ profile → is_empty name ≡ false
profile_if-named [] e = absurd (ground (arith, e))
profile_if-named (c ∷ s) e = refl

section_of-IsNamed : (name : Bytes) → IsNamed (section_of name)
unfolding section_of
section_of-IsNamed name =
    if_rule IsNamed (str_eq (take 8 name) (lit "profile:")) _ _
      (λ _. profile_if-named (trim_copy (drop 8 name))) (λ _ e. absurd (ground (arith, e)))

parse_section_header-IsNamed :
    (line : Bytes) (s : Section) → parse_section_header line ≡ some s → IsNamed s
unfolding parse_section_header
parse_section_header-IsNamed line s =
    let name = trim_copy (take (length (trim_copy line) - 2) (drop 1 (trim_copy line))) in
    if_rule (λ o. o ≡ some s → IsNamed s) (is_bracketed (trim_copy line)) _ _
      (λ _ e.
        subst IsNamed (ap (λ o. elim o as (λ _. Section) [ none ↦ s | some x ↦ x ]) e)
          (section_of-IsNamed name))
      (λ _ e. absurd (ground (arith, e)))

-- What holds between two lines.
abbrev Valid : Section × ParsedConfigFile → Type 0
Valid now = IsNamed now.0 × IsMap now.1

str_eq-nil : (s : Bytes) → str_eq s [] ≡ is_empty s
unfolding str_eq
str_eq-nil [] = refl
str_eq-nil (c ∷ s) = refl

enter-IsMap :
    (section : Section) (key value : Bytes) (parsed : ParsedConfigFile)
    → IsNamed section
    → IsMap parsed
    → IsMap (enter section key value parsed)
unfolding enter
enter-IsMap section key value parsed n m = go section.kind n
  where
    go :
        (kind : SectionKind)
        → (kind ≡ profile → is_empty section.name ≡ false)
        → IsMap (enter (record { kind = kind; name = section.name }) key value parsed)
    go global n = record {
      globals = DistinctKeys-put key value parsed.global_entries m.globals;
      names = m.names;
      named = m.named;
      profiles = m.profiles;
    }
    go profile n =
        if_rule IsMap (is_overlay_key key) _ _
          (λ _. record {
            globals = m.globals;
            names = DistinctKeys-put section.name _ parsed.profile_entries m.names;
            named =
                lookup-put section.name _ parsed.profile_entries []
                ∙ rw (str_eq-nil section.name, n refl) m.named;
            profiles =
                All-put DistinctKeys section.name _ parsed.profile_entries
                  (DistinctKeys-put key value _
                    (entries_of-DistinctKeys section.name parsed.profile_entries m.profiles))
                  m.profiles;
          })
          (λ _. m)
    go other n = m

parse_line-Valid :
    (line : Bytes) (now : Section × ParsedConfigFile) → Valid now → Valid (parse_line line now)
unfolding parse_line
parse_line-Valid line (section, parsed) (n, m) =
    let trimmed = trim_copy line in
    if_rule Valid (is_skipped trimmed) _ _ (λ _. (n, m))
      (λ _.
        Option_rule Valid (parse_section_header trimmed) _ _
          (λ _.
            Option_rule Valid (parse_key_value trimmed) _ _ (λ _. (n, m))
              (λ entry _. (n, enter-IsMap section entry.0 entry.1 parsed n m)))
          (λ next_section e. (parse_section_header-IsNamed trimmed next_section e, m)))

parse_lines-Valid :
    (lines : List Bytes) (now : Section × ParsedConfigFile)
    → Valid now
    → Valid (parse_lines lines now)
unfolding parse_lines
parse_lines-Valid [] now v = v
parse_lines-Valid (line ∷ lines) now v =
    parse_lines-Valid lines (parse_line line now) (parse_line-Valid line now v)

-- Whatever the lines of the file are, no key stands twice in what `parse_file` leaves: not among the
-- global entries, not among the names of the profiles, and not in a profile. No profile has
-- the empty name.
pub parse_file-IsMap : (lines : List Bytes) → IsMap (parse_file lines)
unfolding parse_file no_entries first_section lookup
parse_file-IsMap lines =
    (parse_lines-Valid lines (first_section, no_entries)
      (
        λ e. absurd (ground (arith, e)),
        record { globals = tt; names = tt; named = refl; profiles = tt },
      )).1

-- The bounds of the number of messages to show.
abbrev pub IsMessageCount : ℤ → Type 0
IsMessageCount z = (n : ℕ) × (z ≡ pos n) × (1 ≤ n) × (n ≤ sigaw_max_chat_messages)

clamp_messages-IsMessageCount : (z : ℤ) → IsMessageCount (clamp_messages z)
unfolding clamp_messages
clamp_messages-IsMessageCount (negsuc n) = (1, refl, omega arith, omega arith)
clamp_messages-IsMessageCount (pos n) =
    if_rule IsMessageCount (ltb n 1) _ _ (λ _. (1, refl, omega arith, omega arith))
      (λ h.
        if_rule IsMessageCount (ltb sigaw_max_chat_messages n) _ _
          (λ _. (sigaw_max_chat_messages, refl, omega arith, omega arith))
          (λ g. (n, refl, ground arith, ground arith)))

apply_entries-IsMessageCount :
    {FL : FloatLib} (c : Config FL) (es : Entries) (allow : Bool)
    → DistinctKeys es
    → IsMessageCount c.max_visible_chat_messages
    → IsMessageCount (apply_entries c es allow).max_visible_chat_messages
unfolding effective
apply_entries-IsMessageCount c es allow d h = rw (apply_entries-effective c es allow d) (
    Option_rule IsMessageCount (lookup (lit "max_visible_chat_messages") es) _ _ (λ _. h)
      (λ v _. clamp_messages-IsMessageCount _))

-- Whatever the file says, a configuration that `load_for_executable` reads from it shows at least one
-- and at most `SIGAW_MAX_CHAT_MESSAGES` messages.
pub load_for_executable-IsMessageCount :
    (FL : FloatLib) (lines : List Bytes) (executable_basename : Bytes)
    → IsMessageCount
        (load_for_executable FL (parse_file lines) executable_basename).max_visible_chat_messages
unfolding load_for_executable global_config default_config
load_for_executable-IsMessageCount FL lines name =
    let m = parse_file-IsMap lines in
    let parsed = parse_file lines in
    let base =
      apply_entries-IsMessageCount (default_config FL) parsed.global_entries true m.globals
        (4, refl, omega arith, omega arith) in
    if_rule (λ (c : Config FL). IsMessageCount c.max_visible_chat_messages) (is_empty name) _ _
      (λ _. base)
      (λ _.
        Option_rule (λ (c : Config FL). IsMessageCount c.max_visible_chat_messages)
          (lookup name parsed.profile_entries) _ _ (λ _. base)
          (λ es e.
            apply_entries-IsMessageCount (global_config FL parsed) es false
              (All-lookup DistinctKeys name parsed.profile_entries es m.profiles e) base))
