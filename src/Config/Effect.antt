-- ===== src/Config/Effect.antt =====
-- What a set of entries does to a configuration does not depend on the order of the iteration over it.
use sigaw.Prelude.{
  ◌≡◌, refl, sym, ◌∙◌, Bool, true, false, List, [], ◌∷◌, none, some, arith, if◌then◌else◌, Bytes,
  lit, str_eq, str_eq_iff, Bool-cases, inl, inr, subst,
}
use sigaw.Config.Types.{FloatLib, Config}
use sigaw.Config.Text.{parse_bool, parse_float, parse_int}
use sigaw.Config.Apply.{
  Entries, lookup, clamp_messages, position_of, credential_of, apply_entry, apply_entries,
}

-- No key stands twice: what a map of the standard library keeps.
abbrev pub DistinctKeys : {V : Type 0} → List (Bytes × V) → Type 0
DistinctKeys [] = Unit
DistinctKeys (e ∷ es) = (lookup e.0 es ≡ none) × DistinctKeys es

-- A field after the entries: changed by the value of its key, where there is one.
abbrev pub setting : {T : Type 0} → (Bytes → T → T) → Bytes → Entries → T → T
setting {T} update key es old = elim (lookup key es) as (λ _. T) [
  | none ↦ old
  | some v ↦ update v old
]

module _ {FL : FloatLib} where
  -- A configuration with each field set by the entry of its key.
  unfoldable pub effective : Config FL → Entries → Bool → Config FL
  effective c es allow = record {
    position = setting position_of (lit "position") es c.position;
    scale = setting (parse_float FL) (lit "scale") es c.scale;
    opacity = setting (parse_float FL) (lit "opacity") es c.opacity;
    show_avatars = setting parse_bool (lit "show_avatars") es c.show_avatars;
    show_channel = setting parse_bool (lit "show_channel_name") es c.show_channel;
    show_voice_channel_chat =
        setting parse_bool (lit "show_voice_channel_chat") es c.show_voice_channel_chat;
    compact = setting parse_bool (lit "compact") es c.compact;
    max_visible = setting parse_int (lit "max_visible_users") es c.max_visible;
    max_visible_chat_messages =
        setting (λ v old. clamp_messages (parse_int v old)) (lit "max_visible_chat_messages") es
          c.max_visible_chat_messages;
    client_id =
        if allow then setting credential_of (lit "client_id") es c.client_id else c.client_id;
    client_secret =
        if allow
        then setting credential_of (lit "client_secret") es c.client_secret
        else c.client_secret;
    visible = setting parse_bool (lit "visible") es c.visible;
  }

  module _ {T : Type 0} (get : Config FL → T) (key : Bytes) (update : Bytes → T → T)
      (allow : Bool) where
    -- An entry changes the field where it has its key, and no other entry does.
    abbrev Governs : Type 0
    Governs =
        (c : Config FL) (k v : Bytes)
        → get (apply_entry c k v allow) ≡ (if str_eq k key then update v (get c) else get c)

    settled :
        Governs
        → (c : Config FL) (es : Entries) → DistinctKeys es
        → get (apply_entries c es allow) ≡ setting update key es (get c)
    unfolding apply_entries lookup
    settled step c [] d = refl
    settled step c (e ∷ es) d =
        let rest = settled step (apply_entry c e.0 e.1 allow) es d.1 in
        let one = step c e.0 e.1 in
        elim (Bool-cases (str_eq e.0 key))
          as (λ _. get (apply_entries c (e ∷ es) allow) ≡ setting update key (e ∷ es) (get c)) [
            | inl h ↦
                let gone : lookup key es ≡ none =
                  subst (λ k. lookup k es ≡ none) ((str_eq_iff e.0 key).0 h) d.0 in
                ground (arith, h, gone, rest, one)
            | inr h ↦ ground (arith, h, rest, one)
          ]

    governs :
        ((c : Config FL) (v : Bytes) → get (apply_entry c key v allow) ≡ update v (get c))
        → ((c : Config FL) (k v : Bytes)
            → str_eq k key ≡ false
            → get (apply_entry c k v allow) ≡ get c)
        → Governs
    governs same others c k v =
        elim (Bool-cases (str_eq k key))
          as (λ _.
            get (apply_entry c k v allow) ≡ (if str_eq k key then update v (get c) else get c)) [
              | inl e ↦ rw e (
                  subst (λ k. get (apply_entry c k v allow) ≡ update v (get c))
                    (sym ((str_eq_iff k key).0 e)) (same c v))
              | inr e ↦ rw e (others c k v e)
            ]

  -- The keys of the overlay, whether or not the daemon's keys are allowed.
  module _ (allow : Bool) where
    governs-position : Governs (λ c. c.position) (lit "position") position_of allow
    unfolding apply_entry str_eq lit
    governs-position =
        governs (λ c. c.position) (lit "position") position_of allow (λ c v. refl)
          (λ c k v e. ground (arith, e))

    governs-scale : Governs (λ c. c.scale) (lit "scale") (parse_float FL) allow
    unfolding apply_entry str_eq lit
    governs-scale =
        governs (λ c. c.scale) (lit "scale") (parse_float FL) allow (λ c v. refl)
          (λ c k v e. ground (arith, e))

    governs-opacity : Governs (λ c. c.opacity) (lit "opacity") (parse_float FL) allow
    unfolding apply_entry str_eq lit
    governs-opacity =
        governs (λ c. c.opacity) (lit "opacity") (parse_float FL) allow (λ c v. refl)
          (λ c k v e. ground (arith, e))

    governs-show_avatars : Governs (λ c. c.show_avatars) (lit "show_avatars") parse_bool allow
    unfolding apply_entry str_eq lit
    governs-show_avatars =
        governs (λ c. c.show_avatars) (lit "show_avatars") parse_bool allow (λ c v. refl)
          (λ c k v e. ground (arith, e))

    governs-show_channel : Governs (λ c. c.show_channel) (lit "show_channel_name") parse_bool allow
    unfolding apply_entry str_eq lit
    governs-show_channel =
        governs (λ c. c.show_channel) (lit "show_channel_name") parse_bool allow (λ c v. refl)
          (λ c k v e. ground (arith, e))

    governs-show_voice_channel_chat :
        Governs (λ c. c.show_voice_channel_chat) (lit "show_voice_channel_chat") parse_bool allow
    unfolding apply_entry str_eq lit
    governs-show_voice_channel_chat =
        governs (λ c. c.show_voice_channel_chat) (lit "show_voice_channel_chat") parse_bool allow
          (λ c v. refl) (λ c k v e. ground (arith, e))

    governs-compact : Governs (λ c. c.compact) (lit "compact") parse_bool allow
    unfolding apply_entry str_eq lit
    governs-compact =
        governs (λ c. c.compact) (lit "compact") parse_bool allow (λ c v. refl)
          (λ c k v e. ground (arith, e))

    governs-max_visible : Governs (λ c. c.max_visible) (lit "max_visible_users") parse_int allow
    unfolding apply_entry str_eq lit
    governs-max_visible =
        governs (λ c. c.max_visible) (lit "max_visible_users") parse_int allow (λ c v. refl)
          (λ c k v e. ground (arith, e))

    governs-max_visible_chat_messages :
        Governs
          (λ c. c.max_visible_chat_messages)
          (lit "max_visible_chat_messages")
          (λ v old. clamp_messages (parse_int v old))
          allow
    unfolding apply_entry str_eq lit
    governs-max_visible_chat_messages =
        governs (λ c. c.max_visible_chat_messages) (lit "max_visible_chat_messages")
          (λ v old. clamp_messages (parse_int v old)) allow (λ c v. refl)
          (λ c k v e. ground (arith, e))

    governs-visible : Governs (λ c. c.visible) (lit "visible") parse_bool allow
    unfolding apply_entry str_eq lit
    governs-visible =
        governs (λ c. c.visible) (lit "visible") parse_bool allow (λ c v. refl)
          (λ c k v e. ground (arith, e))

  governs-client_id : Governs (λ c. c.client_id) (lit "client_id") credential_of true
  unfolding apply_entry str_eq lit
  governs-client_id =
      governs (λ c. c.client_id) (lit "client_id") credential_of true (λ c v. refl)
        (λ c k v e. ground (arith, e))

  governs-client_secret : Governs (λ c. c.client_secret) (lit "client_secret") credential_of true
  unfolding apply_entry str_eq lit
  governs-client_secret =
      governs (λ c. c.client_secret) (lit "client_secret") credential_of true (λ c v. refl)
        (λ c k v e. ground (arith, e))

  credentials_kept_once :
      (c : Config FL) (k v : Bytes)
      → ((apply_entry c k v false).client_id ≡ c.client_id)
        × ((apply_entry c k v false).client_secret ≡ c.client_secret)
  unfolding apply_entry
  credentials_kept_once c k v = (ground arith, ground arith)

  -- A profile leaves the credentials alone.
  credentials_kept :
      (c : Config FL) (es : Entries)
      → ((apply_entries c es false).client_id ≡ c.client_id)
        × ((apply_entries c es false).client_secret ≡ c.client_secret)
  unfolding apply_entries
  credentials_kept c [] = (refl, refl)
  credentials_kept c (e ∷ es) =
      let rest = credentials_kept (apply_entry c e.0 e.1 false) es in
      let one = credentials_kept_once c e.0 e.1 in (rest.0 ∙ one.0, rest.1 ∙ one.1)

  identity_of :
      (c : Config FL) (es : Entries) (allow : Bool)
      → DistinctKeys es
      → ((apply_entries c es allow).client_id ≡ (effective c es allow).client_id)
        × ((apply_entries c es allow).client_secret ≡ (effective c es allow).client_secret)
  unfolding effective
  identity_of c es false d = credentials_kept c es
  identity_of c es true d = (
    settled (λ c. c.client_id) (lit "client_id") credential_of true governs-client_id c es d,
    settled (λ c. c.client_secret) (lit "client_secret") credential_of true governs-client_secret c
        es d,
  )

  -- Entries with distinct keys, applied in the order they stand in, leave the configuration in which each
  -- field is set by the entry of its key, or kept where there is none. The credentials are kept where the
  -- daemon's keys are not allowed.
  pub apply_entries-effective :
      (c : Config FL) (es : Entries) (allow : Bool)
      → DistinctKeys es
      → apply_entries c es allow ≡ effective c es allow
  unfolding effective
  apply_entries-effective c es allow d =
      let ids = identity_of c es allow d in
      let position_is =
        settled (λ c. c.position) (lit "position") position_of allow (governs-position allow) c es
          d in
      let scale_is =
        settled (λ c. c.scale) (lit "scale") (parse_float FL) allow (governs-scale allow) c es d in
      let opacity_is =
        settled (λ c. c.opacity) (lit "opacity") (parse_float FL) allow (governs-opacity allow) c es
          d in
      let show_avatars_is =
        settled (λ c. c.show_avatars) (lit "show_avatars") parse_bool allow
          (governs-show_avatars allow) c es d in
      let show_channel_is =
        settled (λ c. c.show_channel) (lit "show_channel_name") parse_bool allow
          (governs-show_channel allow) c es d in
      let show_voice_channel_chat_is =
        settled (λ c. c.show_voice_channel_chat) (lit "show_voice_channel_chat") parse_bool allow
          (governs-show_voice_channel_chat allow) c es d in
      let compact_is =
        settled (λ c. c.compact) (lit "compact") parse_bool allow (governs-compact allow) c es d in
      let max_visible_is =
        settled (λ c. c.max_visible) (lit "max_visible_users") parse_int allow
          (governs-max_visible allow) c es d in
      let max_visible_chat_messages_is =
        settled (λ c. c.max_visible_chat_messages) (lit "max_visible_chat_messages")
          (λ v old. clamp_messages (parse_int v old)) allow
          (governs-max_visible_chat_messages allow) c es d in
      let visible_is =
        settled (λ c. c.visible) (lit "visible") parse_bool allow (governs-visible allow) c es d in
      rw
        (
          sym ids.0,
          sym ids.1,
          sym position_is,
          sym scale_is,
          sym opacity_is,
          sym show_avatars_is,
          sym show_channel_is,
          sym show_voice_channel_chat_is,
          sym compact_is,
          sym max_visible_is,
          sym max_visible_chat_messages_is,
          sym visible_is,
        )
        refl
