-- ===== src/Discord/Wire.antt =====
-- A frame that is sent is the frame that is received.
use sigaw.Prelude.{
  ℕ, ◌+◌, ◌%◌, ◌^◌, ◌≤◌, ◌<◌, ◌≡◌, refl, sym, ◌∙◌, ap, ap₂, true, [], ◌∷◌, ◌++◌, Option, none, some,
  arith, ltb, Bytes, length, take, drop, if_rule, length-append,
}
use mathlib.Core.List.{append-nil}
use sigaw.Socket.Defs.{Socket, read_all}
use sigaw.Socket.Transfer.{Live, read_all-take, write_all-prefix}
use sigaw.Socket.Words.{u32_bytes, u32_of}
use sigaw.Discord.Frame.{
  frame_bytes, send, max_payload, with_payload, with_header, recv_payload, recv,
}

-- What stands in front of the payload.
header : ℕ → ℕ → Bytes
unfolding u32_bytes
header op l = u32_bytes op ++ u32_bytes l

frame-header :
    (op : ℕ) (payload rest : Bytes)
    → let l = length payload % 2 ^ 32 in
      (take 8 (frame_bytes op payload ++ rest) ≡ header op l)
      × (drop 8 (frame_bytes op payload ++ rest) ≡ payload ++ rest)
      × (take 4 (header op l) ≡ u32_bytes op)
      × (take 4 (drop 4 (header op l)) ≡ u32_bytes l)
unfolding frame_bytes header u32_bytes
frame-header op payload rest = (refl, refl, refl, refl)

length-frame_bytes :
    (op : ℕ) (payload : Bytes) → length (frame_bytes op payload) ≡ 8 + length payload
unfolding frame_bytes u32_bytes
length-frame_bytes op payload = omega arith

take_append : (xs ys : Bytes) → take (length xs) (xs ++ ys) ≡ xs
take_append [] ys = refl
take_append (x ∷ xs) ys = ap (◌∷◌ x) (take_append xs ys)

drop_append : (xs ys : Bytes) → drop (length xs) (xs ++ ys) ≡ ys
drop_append [] ys = refl
drop_append (x ∷ xs) ys = drop_append xs ys

recv_header :
    (op : ℕ) (payload rest : Bytes) (s : Socket)
    → s.incoming ≡ frame_bytes op payload ++ rest
    → Live s.reads
    → 8 ≤ length s.reads
    → (t : Socket) × (recv (some s) ≡ recv_payload (header op (length payload % 2 ^ 32)) t)
      × (t.incoming ≡ payload ++ rest)
      × Live t.reads
      × (length s.reads ≤ length t.reads + 8)
unfolding recv with_header
recv_header op payload rest s first live grants =
    let size = length-append (frame_bytes op payload) rest in
    let (t, e, at, live_t, used, out) =
      read_all-take 8 s live grants
        (rw first (omega (arith, size, length-frame_bytes op payload))) in
    let (front, behind, is_op, is_len) = frame-header op payload rest in
    let is_header : take 8 s.incoming ≡ header op (length payload % 2 ^ 32) = rw first front in
    (
      t,
      ap with_header e ∙ ap (λ h. recv_payload h t) is_header,
      rw at (rw first behind),
      live_t,
      used,
    )

-- The outcome of `recv` where a frame of a legal size is in front.
abbrev pub Received : ℕ → Bytes → Bytes → Option (ℕ × Bytes) × Option Socket → Type 0
Received op payload rest out =
    (t : Socket) × (out ≡ (some (op, payload), some t)) × (t.incoming ≡ rest) × Live t.reads

header_fields :
    (op l : ℕ)
    → op < 2 ^ 32
    → l < 2 ^ 32
    → (u32_of (take 4 (header op l)) ≡ op) × (u32_of (take 4 (drop 4 (header op l))) ≡ l)
unfolding header u32_bytes u32_of
header_fields op l small fits = (omega arith, omega arith)

recv_payload-take :
    (op : ℕ) (payload rest : Bytes) (t : Socket)
    → op < 2 ^ 32
    → length payload ≤ max_payload
    → t.incoming ≡ payload ++ rest
    → Live t.reads
    → length payload ≤ length t.reads
    → Received op payload rest (recv_payload (header op (length payload)) t)
unfolding recv_payload with_payload
recv_payload-take op payload rest t small fits there live grants =
    let (is_op, is_len) = header_fields op (length payload) small (omega arith) in
    let (v, e, at, live_v, used, out) =
      read_all-take (length payload) t live grants
        (rw there (omega (arith, length-append payload rest))) in
    let got : take (length payload) t.incoming ≡ payload = rw there (take_append payload rest) in
    let outcome : with_payload (u32_of (take 4 (header op (length payload))))
          (read_all (u32_of (take 4 (drop 4 (header op (length payload))))) t)
        ≡ (some (op, payload), some v) =
      ap₂ (λ o l. with_payload o (read_all l t)) is_op is_len
      ∙ ap (with_payload op) e
      ∙ ap (λ p. (some (op, p), some v)) got in
    if_rule (Received op payload rest)
      (ltb max_payload (u32_of (take 4 (drop 4 (header op (length payload)))))) _ _
      (λ long. absurd (ground (arith, long, fits, is_len)))
      (λ _. (v, outcome, rw at (rw there (drop_append payload rest)), live_v))

-- However the calls of `read` cut the stream: where the bytes of a frame with an opcode of 32 bits and at
-- most 4 MB come first, and `read` grants bytes as long as it is called, `recv` returns that opcode and that
-- payload, and leaves the bytes behind the frame.
pub recv-frame_bytes :
    (op : ℕ) (payload rest : Bytes) (s : Socket)
    → op < 2 ^ 32
    → length payload ≤ max_payload
    → s.incoming ≡ frame_bytes op payload ++ rest
    → Live s.reads
    → 8 + length payload ≤ length s.reads
    → Received op payload rest (recv (some s))
recv-frame_bytes op payload rest s small fits first live grants =
    let (t, e, there, live_t, used) = recv_header op payload rest s first live (omega arith) in
    let l_is : length payload % 2 ^ 32 ≡ length payload = omega arith in
    rw e (rw l_is (recv_payload-take op payload rest t small fits there live_t (omega arith)))

header-split :
    (op n : ℕ) (rest : Bytes)
    → (length (header op n ++ rest) ≡ 8 + length rest)
      × (take 8 (header op n ++ rest) ≡ header op n)
      × (drop 8 (header op n ++ rest) ≡ rest)
unfolding header u32_bytes
header-split op n rest = (omega arith, refl, refl)

-- A header that announces more than 4 MB is refused, and no byte behind it is read.
pub recv-too_long :
    (op n : ℕ) (rest : Bytes) (s : Socket)
    → op < 2 ^ 32
    → n < 2 ^ 32
    → max_payload < n
    → s.incoming ≡ (u32_bytes op ++ u32_bytes n) ++ rest
    → Live s.reads
    → 8 ≤ length s.reads
    → (t : Socket) × (recv (some s) ≡ (none, some t)) × (t.incoming ≡ rest)
unfolding recv with_header recv_payload header
recv-too_long op n rest s small_op small big first live grants =
    let (size, front, behind) = header-split op n rest in
    let (t, e, left, live_t, used, out) =
      read_all-take 8 s live grants (rw first (omega (arith, size))) in
    let is_header : take 8 s.incoming ≡ header op n = rw first front in
    let (is_op, is_len) = header_fields op n small_op small in
    let refused : recv_payload (header op n) t ≡ (none, some t) =
      if_rule (λ (o : Option (ℕ × Bytes) × Option Socket). o ≡ (none, some t))
        (ltb max_payload (u32_of (take 4 (drop 4 (header op n))))) _ _ (λ _. refl)
        (λ short. absurd (ground (arith, short, big, is_len))) in
    (t, ap with_header e ∙ ap (λ h. recv_payload h t) is_header ∙ refused, left ∙ rw first behind)

abbrev sent_by : Option Socket → Bytes
sent_by none = []
sent_by (some s) = s.outgoing

-- Two ends of a connection, however the kernel cuts the stream on either side: a frame with a payload of at most
-- 4 MB that `send` reports as sent, on a stream that nothing was sent on before and whose bytes all arrive, is
-- what `recv` at the other end returns, if its calls of `read` get a byte at least and there are enough.
pub recv-send :
    (op : ℕ) (payload : Bytes) (s t peer : Socket)
    → op < 2 ^ 32
    → length payload ≤ max_payload
    → s.outgoing ≡ []
    → send op payload (some s) ≡ (true, some t)
    → peer.incoming ≡ t.outgoing
    → Live peer.reads
    → 8 + length payload ≤ length peer.reads
    → Received op payload [] (recv (some peer))
unfolding send
recv-send op payload s t peer small fits fresh sent arrived live grants =
    let (bytes, rest, e, out, all, enough) = write_all-prefix (frame_bytes op payload) s in
    let sent_all : bytes ≡ frame_bytes op payload = all (ap (λ o. o.0) sent) in
    let put : t.outgoing ≡ bytes =
      sym (ap (λ o. sent_by o.1) sent) ∙ out ∙ ap (λ front. front ++ bytes) fresh in
    recv-frame_bytes op payload [] peer small fits
      (arrived ∙ put ∙ sent_all ∙ sym (append-nil (frame_bytes op payload))) live grants
