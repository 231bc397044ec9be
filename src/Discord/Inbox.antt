-- ===== src/Discord/Inbox.antt =====
-- `DiscordMessageInbox` of src/daemon/discord_ipc.h.
use sigaw.Prelude.{
  ◌≡◌, refl, ap, Bool, true, false, ◌&&◌, ◌||◌, List, [], ◌∷◌, ◌++◌, Option, none, some, ◌==◌,
  if◌then◌else◌, Bytes, lit, str_eq, is_empty, All, if_rule, Option_rule, subst,
}
use sigaw.Json.Interface.{JsonLib, contains}
use sigaw.Json.Utils.{object_or_null, string_or, u64_or, display_name}
use sigaw.Voice.State.{DiscordUserIdentity}

-- The first element that passes, and the list without it: `find_if` and `erase`.
unfoldable pub take_first : {A : Type 0} → (A → Bool) → List A → Option (A × List A)
take_first p [] = none
take_first {A} p (x ∷ xs) =
    let rest = elim (take_first p xs) as (λ _. Option (A × List A)) [
      | none ↦ none
      | some (y, ys) ↦ some (y, x ∷ ys)
    ] in
    if p x then some (x, xs) else rest

module _ (J : JsonLib) where
  open J use {Json}

  pub record DiscordMessageInbox : Type 0 where
    pub dispatches : List Json
    pub responses : List Json
    pub local_user : DiscordUserIdentity

  unfoldable pub empty_inbox : DiscordMessageInbox
  empty_inbox = record {
    dispatches = [];
    responses = [];
    local_user = record { id = 0; username = []; avatar = [] };
  }

  -- `capture_local_user`, from the user of the message.
  unfoldable pub captured : Json → DiscordUserIdentity → DiscordUserIdentity
  captured user old =
      let id = u64_or J user (lit "id") 0 in
      let username = display_name J user (lit "???") in
      if id == 0 && is_empty username then old else record {
        id = id;
        username = username;
        avatar =
            if contains J user (lit "avatar")
            then string_or J user (lit "avatar") []
            else old.avatar;
      }

  unfoldable pub capture_local_user : Json → DiscordMessageInbox → DiscordMessageInbox
  unfolding captured
  capture_local_user message inbox =
      elim (object_or_null J message (lit "data")) as (λ _. DiscordMessageInbox) [
        | none ↦ inbox
        | some payload ↦
            elim (object_or_null J payload (lit "user")) as (λ _. DiscordMessageInbox) [
              | none ↦ inbox
              | some user ↦ record inbox { local_user = captured user inbox.local_user }
            ]
      ]

  -- `observe`.
  abbrev pub observe : Json → DiscordMessageInbox → DiscordMessageInbox
  observe message inbox = capture_local_user message inbox

  unfoldable pub is_dispatch : Json → Bool
  is_dispatch message = str_eq (string_or J message (lit "cmd") []) (lit "DISPATCH")

  unfoldable pub store : Json → DiscordMessageInbox → DiscordMessageInbox
  store message inbox =
      let seen = observe message inbox in
      if is_dispatch message
      then record seen { dispatches = seen.dispatches ++ (message ∷ []) }
      else record seen { responses = seen.responses ++ (message ∷ []) }

  unfoldable pub take_dispatch : DiscordMessageInbox → Option Json × DiscordMessageInbox
  take_dispatch inbox = elim inbox.dispatches as (λ _. Option Json × DiscordMessageInbox) [
    | [] ↦ (none, inbox)
    | message ∷ rest ↦ (some message, record inbox { dispatches = rest })
  ]

  -- The test of `take_response`.
  unfoldable pub answers : Bytes → Bytes → Json → Bool
  answers nonce expected_cmd candidate =
      str_eq (string_or J candidate (lit "nonce") []) nonce
      && (is_empty expected_cmd || str_eq (string_or J candidate (lit "cmd") []) expected_cmd)

  unfoldable pub take_response :
      Bytes → Bytes → DiscordMessageInbox → Option Json × DiscordMessageInbox
  take_response nonce expected_cmd inbox =
      elim (take_first (answers nonce expected_cmd) inbox.responses)
        as (λ _. Option Json × DiscordMessageInbox) [
          | none ↦ (none, inbox)
          | some (message, rest) ↦ (some message, record inbox { responses = rest })
        ]

  unfoldable pub store_or_match :
      Json → Bytes → Bytes → DiscordMessageInbox → Option Json × DiscordMessageInbox
  store_or_match message nonce expected_cmd inbox =
      take_response nonce expected_cmd (store message inbox)

-- What `take_first` makes of the list: it is none where no element passes, and else the first that does,
-- with every other element in its place.
abbrev pub Split : {A : Type 0} → (A → Bool) → List A → Option (A × List A) → Type 0
Split p xs none = All (λ y. p y ≡ false) xs
Split {A} p xs (some (x, rest)) =
    (before after : List A) × (xs ≡ before ++ x ∷ after)
    × (rest ≡ before ++ after)
    × (p x ≡ true)
    × All (λ y. p y ≡ false) before

pub take_first-Split : {A : Type 0} (p : A → Bool) (xs : List A) → Split p xs (take_first p xs)
unfolding take_first
take_first-Split p [] = tt
take_first-Split p (y ∷ ys) =
    let rest = take_first-Split p ys in
    if_rule (Split p (y ∷ ys)) (p y) _ _ (λ here. ([], ys, refl, refl, here, tt))
      (λ not_here.
        Option_rule (Split p (y ∷ ys)) (take_first p ys) _ _
          (λ e. (not_here, subst (Split p ys) e rest))
          (λ (x, zs) e.
            let (before, after, at, left, passes, fail) = subst (Split p ys) e rest in
            (y ∷ before, after, ap (◌∷◌ y) at, ap (◌∷◌ y) left, passes, (not_here, fail))))
