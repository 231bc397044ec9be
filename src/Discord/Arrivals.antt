-- ===== src/Discord/Arrivals.antt =====
-- What Discord's end of the connection delivers to src/daemon/discord_ipc.h, frame by frame, whatever the
-- daemon does with it.
use sigaw.Prelude.{ℕ, ◌≡◌, true, false, List, [], ◌∷◌, ◌++◌, Option, none, some, ◌==◌, Bytes}
use sigaw.Json.Interface.{JsonLib, JsonText}
use sigaw.Socket.Defs.{Socket}
use sigaw.Discord.Frame.{close_op, ping_op, pong_op, send, recv}

module _ (J : JsonLib) (T : JsonText J) where
  open J use {Json}

  -- The frames between two states of the socket, each as `recv` returns it, and the messages in them: those
  -- of the frames that are no ping, whose answer is sent, do not close, and parse.
  pub data Arrives : Option Socket → List Json → Option Socket → Type 0 where
    nothing_more : {s : Option Socket} → Arrives s [] s
    broken_frame :
        {s t u : Option Socket} {got : List Json} (read : recv s ≡ (none, t))
        (later : Arrives t got u)
        → Arrives s got u
    ping :
        {s t u : Option Socket} {got : List Json} (op : ℕ) (payload : Bytes)
        (read : recv s ≡ (some (op, payload), t)) (is_ping : (op == ping_op) ≡ true)
        (later : Arrives (send pong_op payload t).1 got u)
        → Arrives s got u
    close :
        {s t u : Option Socket} {got : List Json} (op : ℕ) (payload : Bytes)
        (read : recv s ≡ (some (op, payload), t)) (is_close : (op == close_op) ≡ true)
        (later : Arrives t got u)
        → Arrives s got u
    garbage :
        {s t u : Option Socket} {got : List Json} (op : ℕ) (payload : Bytes)
        (read : recv s ≡ (some (op, payload), t)) (no_ping : (op == ping_op) ≡ false)
        (no_close : (op == close_op) ≡ false) (unread : T.parse payload ≡ none)
        (later : Arrives t got u)
        → Arrives s got u
    message :
        {s t u : Option Socket} {got : List Json} (op : ℕ) (payload : Bytes) (m : Json)
        (read : recv s ≡ (some (op, payload), t)) (no_ping : (op == ping_op) ≡ false)
        (no_close : (op == close_op) ≡ false) (parsed : T.parse payload ≡ some m)
        (later : Arrives t got u)
        → Arrives s (m ∷ got) u

  pub Arrives-append :
      {s t u : Option Socket} {xs ys : List Json}
      → Arrives s xs t
      → Arrives t ys u
      → Arrives s (xs ++ ys) u
  Arrives-append nothing_more b = b
  Arrives-append (broken_frame r a) b = broken_frame r (Arrives-append a b)
  Arrives-append (ping op p r i a) b = ping op p r i (Arrives-append a b)
  Arrives-append (close op p r i a) b = close op p r i (Arrives-append a b)
  Arrives-append (garbage op p r i j k a) b = garbage op p r i j k (Arrives-append a b)
  Arrives-append (message op p m r i j k a) b = message op p m r i j k (Arrives-append a b)
