-- ===== src/Tests/Connection.antt =====
-- The theorems of Discord at concrete inputs.
use sigaw.Prelude.{ℕ, ◌≡◌, refl, true, false, List, [], ◌∷◌, ◌++◌, none, some, arith, Bytes, lit}
use sigaw.Socket.Defs.{Socket, write_all, write_loop}
use sigaw.Socket.Transfer.{Live}
use sigaw.Socket.Words.{u32_bytes}
use sigaw.Discord.Frame.{frame_op, frame_bytes, send, recv}
use sigaw.Discord.Wire.{Received, recv-send, recv-too_long}
use sigaw.Discord.Inbox.{empty_inbox}
use sigaw.Discord.Wait.{readable, idle, Round, DiscordIpc, wait_for_response}
use sigaw.Discord.Waiting.{Kept, wait_for_response-Kept}
use sigaw.Discord.Call.{Ends}
use sigaw.Discord.Session.{Session, authorize}
use sigaw.Discord.Authorize.{Granted, authorize-Granted}
use sigaw.Tests.Parameters.{tree_json, tree_text}

abbrev grants : List ℕ
grants = 8 ∷ 1 ∷ 1 ∷ 1 ∷ 1 ∷ 1 ∷ 1 ∷ 1 ∷ 1 ∷ 1 ∷ 1 ∷ []

-- A new socket on which bytes have arrived.
abbrev arrived : Bytes → Socket
arrived bytes = record { incoming = bytes; reads = grants; outgoing = []; writes = 8 ∷ 8 ∷ [] }

abbrev sender : Socket
sender = arrived []

abbrev sent : Socket
sent = record {
  incoming = [];
  reads = grants;
  outgoing = 1 ∷ 0 ∷ 0 ∷ 0 ∷ 1 ∷ 0 ∷ 0 ∷ 0 ∷ 7 ∷ [];
  writes = [];
}

send_seven : send frame_op (7 ∷ []) (some sender) ≡ (true, some sent)
unfolding send write_all write_loop frame_bytes u32_bytes
send_seven = refl

grants-Live : Live grants
grants-Live = omega arith

recv-send_example : Received frame_op (7 ∷ []) [] (recv (some (arrived sent.outgoing)))
recv-send_example =
    recv-send frame_op (7 ∷ []) sender sent (arrived sent.outgoing) (omega arith) (omega arith) refl
      send_seven refl grants-Live (omega arith)

-- A header that announces 5 MB.
abbrev five : Bytes
five = 1 ∷ 0 ∷ 0 ∷ 0 ∷ 0 ∷ 0 ∷ 80 ∷ 0 ∷ []

five-header : five ++ (7 ∷ []) ≡ (u32_bytes frame_op ++ u32_bytes 5242880) ++ (7 ∷ [])
unfolding u32_bytes
five-header = refl

recv-too_long_example :
    (t : Socket) × (recv (some (arrived (five ++ (7 ∷ [])))) ≡ (none, some t))
    × (t.incoming ≡ 7 ∷ [])
recv-too_long_example =
    recv-too_long frame_op 5242880 (7 ∷ []) (arrived (five ++ (7 ∷ []))) (omega arith) (omega arith)
      (omega arith) five-header grants-Live (omega arith)

-- A connection on which the reply to AUTHENTICATE has arrived, behind an event.
abbrev replied : Bytes
replied = 1 ∷ 0 ∷ 0 ∷ 0 ∷ 1 ∷ 0 ∷ 0 ∷ 0 ∷ 0 ∷ []

abbrev waiting : DiscordIpc tree_json tree_text
waiting = record {
  client_id = lit "1";
  fd = some (arrived replied);
  connected = true;
  authed = false;
  nonce_ctr = 0;
  inbox = empty_inbox tree_json;
  access_token = [];
  scopes = [];
}

abbrev rounds : List Round
rounds =
    record { pump = true; now = 5; poll = idle }
    ∷ record { pump = true; now = 6; poll = readable }
    ∷ record { pump = true; now = 100; poll = idle }
    ∷ []

wait_for_response-Kept_example :
    Kept tree_json tree_text
      (lit "s-1")
      (lit "AUTHENTICATE")
      waiting
      (wait_for_response tree_json tree_text rounds
        (lit "s-1")
        (lit "AUTHENTICATE")
        (some 100)
        waiting).0
wait_for_response-Kept_example =
    wait_for_response-Kept tree_json tree_text rounds (lit "s-1") (lit "AUTHENTICATE") (some 100)
      waiting

abbrev session : Session tree_json tree_text (λ n. rounds)
session = record { ipc = waiting; saved = some (lit "token") }

authorize-Granted_example :
    Ends
      (Granted tree_json tree_text (λ n. rounds) true)
      (authorize tree_json tree_text (λ n. rounds) (λ code. none) true (some 60000) session)
authorize-Granted_example =
    authorize-Granted tree_json tree_text (λ n. rounds) (λ code. none) true (some 60000) session
      refl
