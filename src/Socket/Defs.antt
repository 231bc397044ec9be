-- ===== src/Socket/Defs.antt =====
-- `read_all` and `write_all` of src/daemon/discord_ipc.h, which src/daemon/control_server.h has once more. The
-- kernel takes part by the numbers of bytes that it grants to the successive calls of `read` and `write`: a
-- grant of 0, or none left, is the end of the stream or an error. A `read` that waits for bytes which never come
-- has no result and is no grant: what is said of these functions is said of calls that come back, and Discord/Wait
-- has the others as `stalled`.
use sigaw.Prelude.{
  ℕ, zero, suc, ◌-◌, min, List, [], ◌∷◌, ◌++◌, Option, none, some, ◌==◌, if◌then◌else◌, Bytes,
  length, take, drop, Bool, true, false,
}
use mathlib.Core.Option

-- One end of a connection: what the peer sent and was not read yet, and what was sent to the peer.
pub record Socket : Type 0 where
  pub incoming : Bytes
  pub reads : List ℕ
  pub outgoing : Bytes
  pub writes : List ℕ

-- The loop with `n` bytes missing: the bytes, the grants left and the bytes left. `none` stands for a result
-- other than the number of bytes asked for.
unfoldable pub read_loop : List ℕ → Bytes → ℕ → Option Bytes × List ℕ × Bytes
read_loop reads incoming zero = (some [], reads, incoming)
read_loop [] incoming (suc n) = (none, [], incoming)
read_loop (k ∷ reads) incoming (suc n) =
    let r = min k (min (suc n) (length incoming)) in
    let (rest, reads', incoming') = read_loop reads (drop r incoming) (suc n - r) in
    if r == 0
    then (none, reads, incoming)
    else (Option.map (λ s. take r incoming ++ s) rest, reads', incoming')

unfoldable pub read_all : ℕ → Socket → Option Bytes × Socket
unfolding read_loop
read_all n s =
    let (got, reads, incoming) = read_loop s.reads s.incoming n in
    (got, record s { reads = reads; incoming = incoming })

-- The loop with the bytes `buf` still to be sent: whether all were, the grants left, and the bytes sent.
unfoldable pub write_loop : List ℕ → Bytes → Bool × List ℕ × Bytes
write_loop writes [] = (true, writes, [])
write_loop [] (c ∷ buf) = (false, [], [])
write_loop (k ∷ writes) (c ∷ buf) =
    let w = min k (length (c ∷ buf)) in
    let (done, writes', sent) = write_loop writes (drop w (c ∷ buf)) in
    if w == 0 then (false, writes, []) else (done, writes', take w (c ∷ buf) ++ sent)

unfoldable pub write_all : Bytes → Socket → Bool × Socket
unfolding write_loop
write_all buf s =
    let (done, writes, sent) = write_loop s.writes buf in
    (done, record s { writes = writes; outgoing = s.outgoing ++ sent })
