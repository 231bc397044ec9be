-- ===== src/Daemon/Balanced.antt =====
-- What the event loop of src/daemon/main.cpp keeps, whatever comes of the calls that it makes on the connection.
use sigaw.Prelude.{ℕ, ◌≡◌, refl, true, not, List, [], Option, none, some, Bytes}
use sigaw.Json.Interface.{JsonLib}
use sigaw.Voice.Ipc.{IpcLib}
use sigaw.Voice.Ledger.{ledger, ledger_laws, ledger_chat_laws}
use sigaw.Voice.Balanced.{Balanced, IsTracked-Balanced, Balanced-IsTracked}
use sigaw.Config.Types.{FloatLib}
use sigaw.Daemon.Loop.{Polled, Inputs, Next, goes_on, Daemon, round, start}
use sigaw.Daemon.Displayed.{Published}
use sigaw.Daemon.Published.{Kept, round-Kept}
use sigaw.Daemon.Start.{start-Published}

module _ (J : JsonLib) (I : IpcLib) (FL : FloatLib)
    (poll_event : I.Ipc → Polled J.Json × I.Ipc) where
  -- Polling leaves the ledger as it is.
  abbrev pub ledger_poll : List Bytes × I.Ipc → Polled J.Json × (List Bytes × I.Ipc)
  ledger_poll (asked, i) = let (polled, j) = poll_event i in (polled, (asked, j))

  -- The daemon on a connection with a ledger.
  abbrev pub Logged : Type 0
  Logged = Daemon J (ledger I) FL ledger_poll

  -- What a round leaves, if it ends.
  abbrev pub BalancedRound : Inputs → Option (Next × Logged) → Type 0
  BalancedRound inputs none = Unit
  BalancedRound inputs (some (next, e)) =
      Balanced e.runtime e.ipc.0
      × (next ≡ goes_on → not inputs.config_changed ≡ true → Published e.runtime.voice e.shm)

  Kept-BalancedRound :
      (inputs : Inputs) (o : Option (Next × Logged))
      → Kept J (ledger I) FL ledger_poll (ledger_laws I) (ledger_chat_laws I) inputs o
      → BalancedRound inputs o
  Kept-BalancedRound inputs none h = tt
  Kept-BalancedRound inputs (some (next, e)) (tracked, published) =
      (IsTracked-Balanced I e.runtime e.ipc.0 e.ipc.1 tracked, published)

  -- A round of the event loop, on any connection that keeps a ledger of the calls made on it, and whatever
  -- comes of these calls: where the round ends, the channels for which the daemon called
  -- `subscribe_channel` and not `unsubscribe_channel` since are exactly the recorded one, or none, if that
  -- was so before, and so is the target of a pending sync and of the voice state; and where the loop goes
  -- on and the configuration did not change, the shared memory holds what `update_shm` writes for the voice
  -- state, if it did so before.
  pub round-Balanced :
      (inputs : Inputs) (d : Logged)
      → Balanced d.runtime d.ipc.0
      → Published d.runtime.voice d.shm
      → BalancedRound inputs (round J (ledger I) FL ledger_poll inputs d)
  round-Balanced inputs d h published =
      Kept-BalancedRound inputs (round J (ledger I) FL ledger_poll inputs d) (
        round-Kept J (ledger I) FL ledger_poll (ledger_laws I) (ledger_chat_laws I) inputs d
          (λ k. refl) (Balanced-IsTracked I d.runtime d.ipc.0 d.ipc.1 h) published)

  -- From a connection on which no channel was asked for, whatever comes of the calls made on it: the event
  -- loop begins with `subscribe_channel` called, and not `unsubscribe_channel` since, for exactly the
  -- recorded channel, or for none, the target of a pending sync and of the voice state likewise, and the
  -- shared memory holds what `update_shm` writes for the voice state.
  pub start-Balanced :
      (schedule_time sync_time : ℕ) (d : Logged)
      → d.ipc.0 ≡ []
      → let e = start J (ledger I) FL ledger_poll schedule_time sync_time d in
        Balanced e.runtime e.ipc.0 × Published e.runtime.voice e.shm
  start-Balanced t u d fresh =
      let e = start J (ledger I) FL ledger_poll t u d in
      let (tracked, published) =
        start-Published J (ledger I) FL ledger_poll (ledger_laws I) (ledger_chat_laws I) t u d
          fresh in
      (IsTracked-Balanced I e.runtime e.ipc.0 e.ipc.1 tracked, published)
