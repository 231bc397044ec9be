-- ===== src/Tests/Process.antt =====
-- The theorems of Launcher and Tray at concrete inputs.
use sigaw.Prelude.{
  ◌≡◌, refl, true, false, not, ◌&&◌, if◌then◌else◌, Bytes, lit, str_eq, any_of, ◌∷◌,
}
use sigaw.Text.{is_space}
use sigaw.Launcher.Defs.{is_preload_separator, preload_contains, prepend_preload}
use sigaw.Launcher.Words.{IsEntry, words, preload_contains-words, words-prepend_preload}
use sigaw.Config.Types.{Config, default_config}
use sigaw.Tray.Plan.{
  toggle_voice_messages, plan_action, planned_config, daemon_chat_requested, plan_action-chat,
}
use sigaw.Tests.Parameters.{text_float}

-- Two libraries, apart by a colon, and another one.
abbrev two_libraries : Bytes
two_libraries = lit "a.so:b.so"

abbrev hook : Bytes
hook = lit "c.so"

preload_contains-words_example :
    preload_contains two_libraries hook ≡ any_of (λ w. str_eq w hook) (words two_libraries)
preload_contains-words_example = preload_contains-words two_libraries hook

hook-IsEntry : IsEntry hook
unfolding lit is_preload_separator is_space
hook-IsEntry = (refl, (refl, (refl, (refl, (refl, tt)))))

words-prepend_preload_example : words (prepend_preload two_libraries hook) ≡ (
    if any_of (λ w. str_eq w hook) (words two_libraries)
    then words two_libraries
    else hook ∷ words two_libraries)
words-prepend_preload_example = words-prepend_preload two_libraries hook hook-IsEntry

abbrev defaults : Config text_float
defaults = default_config text_float

plan_action-chat_example :
    let p = plan_action toggle_voice_messages defaults false true in
    let was = daemon_chat_requested defaults false in
    let is = daemon_chat_requested (planned_config defaults p) false in
    (p.clear_chat_state ≡ not is)
    × (p.refresh_chat_state ≡ (is && not was && true))
    × (p.reconnect_requested ≡ (is && not was && not true))
plan_action-chat_example = plan_action-chat defaults false true
