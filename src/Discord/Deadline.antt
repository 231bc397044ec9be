-- ===== src/Discord/Deadline.antt =====
-- That `wait_for_response` of src/daemon/discord_ipc.h ends.
use sigaw.Prelude.{◌≡◌, ◌≢◌, Option}
use sigaw.Json.Interface.{JsonLib, JsonText}
use sigaw.Discord.Wait.{WaitStatus, DiscordIpc, Outcome, done, hangs}

module _ (J : JsonLib) (T : JsonText J) where
  open J use {Json}

  -- The call has returned.
  abbrev pub Returned : Outcome J T → Type 0
  Returned o =
      (status : WaitStatus) × (response : Option Json) × (last : DiscordIpc J T) × (o
        ≡ done status response last)

  -- A function of the connection that comes back.
  Goes : Outcome J T → Type 0
  Goes o = (last : DiscordIpc J T) → o ≢ hangs last
