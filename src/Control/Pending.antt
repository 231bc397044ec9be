-- ===== src/Control/Pending.antt =====
-- The action that `process_pending` of src/daemon/control_server.h returns for several clients.
use sigaw.Prelude.{
  ◌≡◌, ◌≢◌, refl, sym, ◌∙◌, Bool, true, false, List, [], ◌∷◌, some, arith, if◌then◌else◌, any_of,
}
use sigaw.Socket.Defs.{Socket}
use sigaw.Config.Types.{FloatLib}
use sigaw.Control.Server.{
  Action, nothing, refresh, reload, quit, Settings, Handled, handle_client, merged, then_others,
  process_loop, process_pending,
}

abbrev is_quit : Action → Bool
is_quit quit = true
is_quit _ = false

abbrev is_reload : Action → Bool
is_reload reload = true
is_reload _ = false

abbrev is_refresh : Action → Bool
is_refresh refresh = true
is_refresh _ = false

-- The strongest of several actions: to quit, to reload, to refresh, and nothing.
abbrev pub strongest : List Action → Action
strongest actions =
    if any_of is_quit actions
    then quit
    else if any_of is_reload actions
    then reload
    else if any_of is_refresh actions
    then refresh
    else nothing

strongest-merged :
    (a b : Action) (rest : List Action)
    → a ≢ quit
    → b ≢ quit
    → strongest (merged a b ∷ rest) ≡ strongest (a ∷ b ∷ rest)
unfolding any_of merged
strongest-merged quit b rest h k = absurd (h refl)
strongest-merged a quit rest h k = absurd (k refl)
strongest-merged nothing nothing rest h k = refl
strongest-merged nothing refresh rest h k = refl
strongest-merged nothing reload rest h k = refl
strongest-merged refresh nothing rest h k = refl
strongest-merged refresh refresh rest h k = refl
strongest-merged refresh reload rest h k = refl
strongest-merged reload nothing rest h k = refl
strongest-merged reload refresh rest h k = refl
strongest-merged reload reload rest h k = refl

strongest-quit : (a : Action) → quit ≡ strongest (a ∷ quit ∷ [])
unfolding any_of
strongest-quit nothing = refl
strongest-quit refresh = refl
strongest-quit reload = refl
strongest-quit quit = refl

module _ (FL : FloatLib) where
  -- The clients one after another, up to the first that stops the daemon: what is done for each, and the
  -- settings in the end.
  pub data Handles
      : List Socket → Settings FL → List Action → List Socket → Settings FL → Type 0 where
    none_left : (settings : Settings FL) → Handles [] settings [] [] settings
    stopped :
        (client served : Socket) (clients : List Socket) (settings after : Settings FL)
        → handle_client FL client settings ≡ (quit, served, after)
        → Handles (client ∷ clients) settings (quit ∷ []) (served ∷ []) after
    handled :
        (client served : Socket) (clients others : List Socket) (settings after final : Settings FL)
        → (action : Action) (actions : List Action) → action ≢ quit
        → handle_client FL client settings ≡ (action, served, after)
        → Handles clients after actions others final
        → Handles (client ∷ clients) settings (action ∷ actions) (served ∷ others) final

  Looped : Action → List Socket → Settings FL → Action × List Socket × Settings FL → Type 0
  Looped action clients settings (last, served, final) =
      (actions : List Action) × Handles clients settings actions served final
      × (last ≡ strongest (action ∷ actions))

  then_others-Looped :
      (action : Action) (client : Socket) (clients : List Socket) (settings : Settings FL)
      → (h : Handled FL) (rest : Action × List Socket × Settings FL) → action ≢ quit
      → handle_client FL client settings ≡ h
      → (h.0 ≢ quit → Looped (merged action h.0) clients h.2 rest)
      → Looped action (client ∷ clients) settings (then_others FL h rest)
  unfolding Looped then_others
  then_others-Looped action client clients settings (quit, served, after) rest going e looped =
      (quit ∷ [], stopped client served clients settings after e, strongest-quit action)
  then_others-Looped action client clients settings (now, served, after) (last, others, final) going
        e looped =
      let stays : now ≢ quit = λ k. cc in
      let (actions, handles, result) = looped stays in
      (
        now ∷ actions,
        handled client served clients others settings after final now actions stays e handles,
        result ∙ strongest-merged action now actions going stays,
      )

  merged-ne : (a b : Action) → a ≢ quit → merged a b ≢ quit
  unfolding merged
  merged-ne quit b h k = h refl
  merged-ne nothing b h k = ground (arith, k)
  merged-ne refresh b h k = ground (arith, k)
  merged-ne reload b h k = ground (arith, k)

  strongest_alone : (a : Action) → strongest (a ∷ []) ≡ a
  unfolding any_of
  strongest_alone nothing = refl
  strongest_alone refresh = refl
  strongest_alone reload = refl
  strongest_alone quit = refl

  process_loop-Looped :
      (action : Action) (clients : List Socket) (settings : Settings FL)
      → action ≢ quit
      → Looped action clients settings (process_loop FL action clients settings)
  unfolding Looped process_loop
  process_loop-Looped action [] settings going =
      ([], none_left settings, sym (strongest_alone action))
  process_loop-Looped action (client ∷ clients) settings going =
      let h = handle_client FL client settings in
      then_others-Looped action client clients settings h _ going refl
        (λ stays. process_loop-Looped (merged action h.0) clients h.2 (merged-ne action h.0 going))

  -- However many clients wait: they are handled one after another, each with the settings that the one before
  -- left, up to the first that stops the daemon, and the action that is returned is the strongest of theirs:
  -- to quit, to reload, to refresh, or none.
  pub process_pending-Handles :
      (clients : List Socket) (settings : Settings FL)
      → let (action, served, final) = process_pending FL (some clients) settings in
        (actions : List Action) × Handles clients settings actions served final
        × (action ≡ strongest actions)
  unfolding process_pending Looped any_of
  process_pending-Handles clients settings = process_loop-Looped nothing clients settings (λ k. cc)
