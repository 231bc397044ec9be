-- ===== src/Control/Client.antt =====
-- `send_ctl_request` of src/ctl/main.cpp and the commands that use it.
use sigaw.Prelude.{
  ℕ, not, ◌&&◌, [], ◌∷◌, ◌++◌, Option, none, some, ◌==◌, if◌then◌else◌, Bytes, is_empty,
}
use sigaw.Protocol.{sigaw_ctl_toggle, sigaw_ctl_reload, sigaw_ctl_quit}
use sigaw.Shm.Strings.{c_string}
use sigaw.Socket.Defs.{Socket, read_all, write_all}
use sigaw.Control.Wire.{request_bytes, response_of}

-- What is made of the bytes of the response: the result, and the message if there is a response.
unfoldable pub on_response : Option Bytes → ℕ × Option Bytes
on_response none = (1, none)
on_response (some bytes) =
    let response = response_of bytes in
    (if response.status == 0 then 0 else 1, some (c_string response.message))

-- `none` is a socket that is not connected. The loops of the function are `write_all` and `read_all`.
unfoldable pub send_ctl_request : ℕ → Option Socket → (ℕ × Option Bytes) × Option Socket
unfolding on_response
send_ctl_request command none = ((1, none), none)
send_ctl_request command (some fd) =
    let (sent, waiting) = write_all (request_bytes command) fd in
    let (got, closed) = read_all 264 waiting in
    if sent then (on_response got, some closed) else ((1, none), some waiting)

-- `cmd_toggle`, `cmd_reload` and `cmd_stop`: the exit code, and what is printed.
unfoldable pub cmd_request : ℕ → Option Socket → ℕ × Bytes
unfolding send_ctl_request
cmd_request command fd =
    let ((rc, message), closed) = send_ctl_request command fd in
    let text = elim message as (λ _. Bytes) [ none ↦ [] | some m ↦ m ] in
    (rc, if rc == 0 && not (is_empty text) then text ++ (10 ∷ []) else [])

unfoldable pub cmd_toggle : Option Socket → ℕ × Bytes
cmd_toggle fd = cmd_request sigaw_ctl_toggle fd

unfoldable pub cmd_reload : Option Socket → ℕ × Bytes
cmd_reload fd = cmd_request sigaw_ctl_reload fd

unfoldable pub cmd_stop : Option Socket → ℕ × Bytes
cmd_stop fd = cmd_request sigaw_ctl_quit fd
