-- ===== src/Config/Profiles.antt =====
-- Whether some profile asks for the chat, against what a program of that name loads.
use sigaw.Prelude.{
  ◌≡◌, ◌↔◌, refl, sym, ◌∙◌, ap, Bool, ◌||◌, true, false, List, [], ◌∷◌, none, some, arith, Bytes,
  str_eq, str_eq_iff, str_eq_refl, Bool-cases, inl, inr, if_rule, any_of,
}
use sigaw.Config.Types.{FloatLib, requests_voice_channel_chat}
use sigaw.Config.Apply.{
  Entries, ParsedConfigFile, lookup, apply_entries, global_config, any_profile_requests_chat,
  load_for_executable,
}
use sigaw.Config.File.{parse_file}
use sigaw.Config.Effect.{DistinctKeys}
use sigaw.Config.Parsed.{IsMap, parse_file-IsMap}

abbrev Found : (Entries → Bool) → List (Bytes × Entries) → Type 0
Found p ps = (name : Bytes) × (es : Entries) × (lookup name ps ≡ some es) × (p es ≡ true)

any_of-lookup :
    (p : Entries → Bool) (ps : List (Bytes × Entries))
    → DistinctKeys ps
    → any_of (λ e. p e.1) ps ≡ true
    → Found p ps
unfolding any_of lookup
any_of-lookup p [] d h = absurd (ground (arith, h))
any_of-lookup p (e ∷ ps) d h = elim (Bool-cases (p e.1)) as (λ _. Found p (e ∷ ps)) [
  | inl here ↦ (e.0, e.1, rw (str_eq_refl e.0) refl, here)
  | inr not_here ↦
      let (name, es, l, g) = any_of-lookup p ps d.1 (ground (arith, h, not_here)) in
      let other : str_eq e.0 name ≡ true → lookup e.0 ps ≡ some es =
        λ same. ap (λ k. lookup k ps) ((str_eq_iff e.0 name).0 same) ∙ l in
      (name, es, ground (arith, l, other, d.0), g)
]

lookup-any_of :
    (p : Entries → Bool) (ps : List (Bytes × Entries)) (name : Bytes) (es : Entries)
    → lookup name ps ≡ some es
    → p es ≡ true
    → any_of (λ e. p e.1) ps ≡ true
unfolding any_of lookup
lookup-any_of p [] name es h g = absurd (ground (arith, h))
lookup-any_of p (e ∷ ps) name es h g =
    if_rule (λ o. o ≡ some es → p e.1 || any_of (λ e. p e.1) ps ≡ true) (str_eq e.0 name) _ _
      (λ _ k. ground (
        arith,
        g,
        ap (λ o. elim o as (λ _. Entries) [ none ↦ e.1 | some x ↦ x ]) k,
        ap (λ o. p (elim o as (λ _. Entries) [ none ↦ e.1 | some x ↦ x ])) k,
      ))
      (λ _ k. ground (arith, lookup-any_of p ps name es k g)) h

-- A program with a profile loads the global entries and then its own.
loads :
    (FL : FloatLib) (parsed : ParsedConfigFile) (name : Bytes) (es : Entries)
    → IsMap parsed
    → lookup name parsed.profile_entries ≡ some es
    → requests_voice_channel_chat (load_for_executable FL parsed name)
      ≡ requests_voice_channel_chat (apply_entries (global_config FL parsed) es false)
unfolding load_for_executable
loads FL parsed [] es m l = absurd (ground (arith, m.named, l))
loads FL parsed (c ∷ s) es m l = rw l refl

-- For the entries of a configuration file, some profile asks for the chat exactly where there is a
-- profile whose program, as `load_for_executable` reads its configuration, asks for it.
pub any_profile_requests_chat_iff :
    (FL : FloatLib) (lines : List Bytes)
    → (any_profile_requests_chat FL (parse_file lines) ≡ true) ↔ (
        (name : Bytes) × (es : Entries) × (lookup name (parse_file lines).profile_entries ≡ some es)
        × (requests_voice_channel_chat (load_for_executable FL (parse_file lines) name) ≡ true))
unfolding any_profile_requests_chat
any_profile_requests_chat_iff FL lines =
    let parsed = parse_file lines in
    let m = parse_file-IsMap lines in
    let asks : Entries → Bool =
      λ es. requests_voice_channel_chat (apply_entries (global_config FL parsed) es false) in
    (
      λ h.
          let (name, es, l, g) = any_of-lookup asks parsed.profile_entries m.names h in
          (name, es, l, loads FL parsed name es m l ∙ g),
      λ (name, es, l, g).
          lookup-any_of asks parsed.profile_entries name es l
            (sym (loads FL parsed name es m l) ∙ g),
    )
