-- ===== src/Discord/Frame.antt =====
-- The frames of Discord's local socket: `Opcode`, `send` and `recv` of src/daemon/discord_ipc.h, on a
-- little-endian machine. `none` for a socket is a descriptor below 0.
use sigaw.Prelude.{
  ℕ, ◌*◌, ◌%◌, ◌^◌, Bool, false, ◌++◌, Option, none, some, ltb, if◌then◌else◌, Bytes, length, take,
  drop,
}
use sigaw.Socket.Defs.{Socket, read_all, write_all}
use sigaw.Socket.Words.{u32_bytes, u32_of}

-- The values of `Opcode`; others may arrive too, since `recv` casts the number.
abbrev pub handshake_op : ℕ
handshake_op = 0

abbrev pub frame_op : ℕ
frame_op = 1

abbrev pub close_op : ℕ
close_op = 2

abbrev pub ping_op : ℕ
ping_op = 3

abbrev pub pong_op : ℕ
pong_op = 4

-- The buffer of `send`, for payloads below 2 ^ 32 - 8 bytes: from there on its size in 32 bits wraps around.
unfoldable pub frame_bytes : ℕ → Bytes → Bytes
unfolding u32_bytes
frame_bytes op payload = u32_bytes op ++ (u32_bytes (length payload % 2 ^ 32) ++ payload)

unfoldable pub send : ℕ → Bytes → Option Socket → Bool × Option Socket
unfolding frame_bytes
send op payload none = (false, none)
send op payload (some s) = let (done, t) = write_all (frame_bytes op payload) s in (done, some t)

-- The limit of 4 MB on a payload.
abbrev pub max_payload : ℕ
max_payload = 4 * 1024 * 1024

-- What `recv` returns, from the opcode and what `read_all` gave for the payload.
unfoldable pub with_payload : ℕ → Option Bytes × Socket → Option (ℕ × Bytes) × Option Socket
with_payload op (none, s) = (none, some s)
with_payload op (some payload, s) = (some (op, payload), some s)

-- The part of `recv` behind the header.
unfoldable pub recv_payload : Bytes → Socket → Option (ℕ × Bytes) × Option Socket
unfolding u32_of with_payload
recv_payload hdr s =
    let o = u32_of (take 4 hdr) in
    let l = u32_of (take 4 (drop 4 hdr)) in
    let rest = with_payload o (read_all l s) in if ltb max_payload l then (none, some s) else rest

unfoldable pub with_header : Option Bytes × Socket → Option (ℕ × Bytes) × Option Socket
unfolding recv_payload
with_header (none, s) = (none, some s)
with_header (some hdr, s) = recv_payload hdr s

-- The opcode and the payload; `none` is the return of `false`.
unfoldable pub recv : Option Socket → Option (ℕ × Bytes) × Option Socket
unfolding with_header
recv none = (none, none)
recv (some s) = with_header (read_all 8 s)
