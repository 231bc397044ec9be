-- ===== src/Overlay/Shown.antt =====
-- Both ends of src/common/overlay_frame_shm.h: what is published is what is read.
use sigaw.Prelude.{
  ℕ, ◌+◌, ◌%◌, ◌^◌, ◌<◌, ◌≤◌, [], ◌==◌, ◌≡◌, refl, sym, ◌∙◌, ap, subst, Bool, true, false, not,
  ◌&&◌, none, some, if◌then◌else◌, arith, ltb, length, take, if_rule,
}
use sigaw.Protocol.{sigaw_overlay_magic, sigaw_version}
use sigaw.Shm.Seqlock.{is_odd}
use sigaw.Config.Types.{OverlayPosition, top_left, top_right, bottom_left, bottom_right}
use sigaw.Overlay.Frame.{
  OverlayFrameSnapshot, overlay_anchor, overlay_position, header_size, Object, Store, zero_header,
}
use sigaw.Overlay.Writer.{
  OverlayFrameWriter, if_visible, byte_size_of, publish, succeeds, is_mapped,
}
use sigaw.Overlay.Reader.{
  OverlayFrameReader, View, ReadResult, if_seen, copied, read_attempts, read_mapped, probed,
  refresh_mapping, read, adopt_mapping, close, same_object,
}
use sigaw.Overlay.Mapped.{is_mapped-some, Holds, Maps, publish-Holds}

overlay_position-overlay_anchor : (p : OverlayPosition) → overlay_position (overlay_anchor p) ≡ p
unfolding overlay_position overlay_anchor
overlay_position-overlay_anchor top_left = refl
overlay_position-overlay_anchor top_right = refl
overlay_position-overlay_anchor bottom_left = refl
overlay_position-overlay_anchor bottom_right = refl

-- What an attempt sees of an object that nobody writes.
abbrev pub still : Object → View
still o = record {
  seq1 = o.header.sequence;
  header = o.header;
  pixels = o.pixels;
  seq2 = o.header.sequence;
}

-- What is shown of a frame: nothing of the pixels of one that is not visible.
abbrev pub shown : OverlayFrameSnapshot → ℕ → OverlayFrameSnapshot
shown frame sequence = record {
  visible = frame.visible;
  position = frame.position;
  margin_px = frame.margin_px;
  width = if_visible frame frame.width;
  height = if_visible frame frame.height;
  stride = if_visible frame frame.stride;
  sequence = sequence;
  rgba = take (byte_size_of frame) frame.rgba;
}

-- The result of a call of `read` by a reader whose last frame of the object had the sequence number `last`: a
-- frame of that number is none that is new.
abbrev pub ReadAs : OverlayFrameSnapshot → ℕ → ℕ → OverlayFrameSnapshot → ReadResult → Type 0
ReadAs frame sequence last out (ok, changed, seen, q) =
    (ok ≡ true)
    × (changed ≡ not (sequence == last))
    × (seen ≡ (if sequence == last then out else shown frame sequence))

copied-shown :
    (frame : OverlayFrameSnapshot) (o : Object) (out : OverlayFrameSnapshot)
    → Holds frame o
    → record (copied (still o) out) { sequence = o.header.sequence } ≡ shown frame o.header.sequence
copied-shown frame o out h =
    let v : not (o.header.visible == 0) ≡ frame.visible = ground (arith, h.visible) in
    let seen : (x n : ℕ) → x ≡ if_visible frame n → if_seen (still o) x ≡ if_visible frame n =
      λ x n e. ground (arith, e, h.visible) in
    let place = ap overlay_position h.anchor ∙ overlay_position-overlay_anchor frame.position in
    let bytes =
      ap (λ n. take n o.pixels) (seen o.header.byte_size (length frame.rgba) h.byte_size)
      ∙ h.pixels in
    λ i. record {
      visible = v i;
      position = place i;
      margin_px = h.margin_px i;
      width = seen o.header.width frame.width h.width i;
      height = seen o.header.height frame.height h.height i;
      stride = seen o.header.stride frame.stride h.stride i;
      sequence = o.header.sequence;
      rgba = bytes i;
    }

read_attempts-ReadAs :
    (frame : OverlayFrameSnapshot) (o : Object) (views : ℕ → View) (out : OverlayFrameSnapshot)
    (r : OverlayFrameReader)
    → Holds frame o
    → views 0 ≡ still o
    → o.header.sequence % 2 ≡ 0
    → r.mapped_size ≡ o.size
    → ReadAs frame o.header.sequence r.last_seq out (read_attempts 3 views out r)
unfolding read_attempts
read_attempts-ReadAs frame o views out r h same even size =
    let v = views 0 in
    let n = o.header.sequence in
    let one : v.seq1 ≡ n = ap (λ x. x.seq1) same in
    let two : v.seq2 ≡ n = ap (λ x. x.seq2) same in
    let all : if_seen v v.header.byte_size ≡ byte_size_of frame =
      subst (λ x. if_seen x x.header.byte_size ≡ byte_size_of frame) (sym same)
        (ground (arith, h.visible, h.byte_size)) in
    let copy : record (copied v out) { sequence = v.seq1 } ≡ shown frame n =
      subst (λ x. record (copied x out) { sequence = x.seq1 } ≡ shown frame n) (sym same)
        (copied-shown frame o out h) in
    let P = ReadAs frame n r.last_seq out in
    if_rule P (is_odd v.seq1) _ _ (λ odd. absurd (ground (arith, odd, one, even)))
      (λ _.
        if_rule P (v.seq1 == r.last_seq) _ _
          (λ seen.
            let zero : (n == r.last_seq) ≡ true = ground (arith, seen, one) in
            (refl, rw zero refl, rw zero refl))
          (λ new.
            let some_frame : (n == r.last_seq) ≡ false = ground (arith, new, one) in
            if_rule P (ltb r.mapped_size (header_size + if_seen v v.header.byte_size)) _ _
              (λ short. absurd (ground (arith, short, all, size, h.size)))
              (λ _.
                if_rule P (v.seq1 == v.seq2) _ _
                  (λ _. (refl, rw some_frame refl, rw some_frame copy))
                  (λ torn. absurd (ground (arith, torn, one, two))))))

-- The reader has mapped what its `mapped_stat` says.
abbrev pub IsMapping : OverlayFrameReader → Type 0
IsMapping r =
    (k : ℕ) → r.mapping ≡ some k → (r.mapped_stat.0 ≡ k) × (r.mapped_size ≡ r.mapped_stat.1)

-- The reader has the named object mapped already.
abbrev pub has_object : OverlayFrameReader → ℕ → ℕ → Bool
has_object r k size = is_mapped r.mapping && r.stat_valid && same_object r.mapped_stat (k, size)

-- The sequence number that the reader remembers of the object: none of another object.
abbrev pub last_of : OverlayFrameReader → ℕ → ℕ → ℕ
last_of r k size = if has_object r k size then r.last_seq else 0

-- A reader that has object `k` mapped.
Adopted : Store → ℕ → ℕ → Bool × OverlayFrameReader → Type 0
Adopted t k last (ok, r) =
    (ok ≡ true) × (r.mapping ≡ some k) × (r.mapped_size ≡ (t.objects k).size) × (r.last_seq ≡ last)

probed-Adopted :
    (t : Store) (k : ℕ) (r : OverlayFrameReader)
    → IsMapping r
    → header_size ≤ (t.objects k).size
    → Adopted t k (last_of r k (t.objects k).size) (probed true t (some k) r)
unfolding probed adopt_mapping close Adopted
probed-Adopted t k r good large =
    let size = (t.objects k).size in
    let last = last_of r k size in
    if_rule (Adopted t k last) (ltb size header_size) _ _
      (λ short. absurd (ground (arith, short, large)))
      (λ _.
        if_rule (Adopted t k last) (has_object r k size) _ _
          (λ there.
            let (j, e) = is_mapped-some r.mapping (ground (arith, there)) in
            let (inode, whole) = good j e in
            let at : r.mapped_stat.0 ≡ k = ground (arith, there) in
            let same : r.mapped_stat.1 ≡ size = ground (arith, there) in
            (refl, e ∙ ap some (sym inode ∙ at), whole ∙ same, rw there refl))
          (λ other. (refl, refl, refl, rw other refl)))

refresh_mapping-Adopted :
    (now : ℕ) (t : Store) (k : ℕ) (r : OverlayFrameReader)
    → IsMapping r
    → (is_mapped r.mapping && ltb now r.next_probe) ≡ false
    → t.named ≡ some k
    → header_size ≤ (t.objects k).size
    → Adopted t k (last_of r k (t.objects k).size) (refresh_mapping false now true t r)
unfolding refresh_mapping
refresh_mapping-Adopted now t k r good due named large =
    let q = record r { next_probe = now + r.probe_interval } in
    let P = Adopted t k (last_of r k (t.objects k).size) in
    if_rule P (not false && is_mapped r.mapping && ltb now r.next_probe) _ _
      (λ early. absurd (ground (arith, early, due)))
      (λ _. subst (λ o. P (probed true t o q)) (sym named) (probed-Adopted t k q good large))

-- What the reader sees while nobody writes.
abbrev pub quiet : Store → ℕ → View
quiet t i = elim t.named as (λ _. View) [
  | none ↦ still (record { size = 0; header = zero_header; pixels = [] })
  | some k ↦ still (t.objects k)
]

read_mapped-ReadAs :
    (frame : OverlayFrameSnapshot) (t : Store) (k : ℕ) (out : OverlayFrameSnapshot)
    (r : OverlayFrameReader)
    → Holds frame (t.objects k)
    → t.named ≡ some k
    → (t.objects k).header.sequence % 2 ≡ 0
    → r.mapped_size ≡ (t.objects k).size
    → ReadAs frame
        (t.objects k).header.sequence
        r.last_seq
        out
        (read_mapped (quiet t) t out (some k) r)
unfolding read_mapped
read_mapped-ReadAs frame t k out r h named even size =
    let o = t.objects k in
    let P = ReadAs frame o.header.sequence r.last_seq out in
    if_rule P (not (o.header.magic == sigaw_overlay_magic)) _ _
      (λ no. absurd (ground (arith, no, h.magic)))
      (λ _.
        if_rule P (not (o.header.version == sigaw_version)) _ _
          (λ no. absurd (ground (arith, no, h.version)))
          (λ _. read_attempts-ReadAs frame o (quiet t) out r h (rw named refl) even size))

-- Whatever frame was published before, whatever the memory holds under that name, and also if the size has
-- changed: if the system calls succeed, `publish` returns `true`, and the writer keeps the named object mapped
-- with its even sequence number. A reader whose probe is due, or that has nothing mapped, then reads the frame,
-- without the pixels and measures of an invisible one, and reports a change, whether it had another object
-- mapped, this one, or none; only if the sequence number is the one that it remembers of this object (0 of an
-- object that it had not mapped), it reports no change and leaves `out` as it is. The frame has less
-- than 2 ^ 32 bytes, the reader's record of its mapping is right, and nobody writes during the read.
pub read-publish :
    (frame : OverlayFrameSnapshot) (w : OverlayFrameWriter) (s : Store) (now : ℕ)
    (out : OverlayFrameSnapshot) (q : OverlayFrameReader)
    → length frame.rgba < 2 ^ 32
    → w.sequence % 2 ≡ 0
    → ((k : ℕ) → w.mapping ≡ some k → Maps w s k)
    → IsMapping q
    → (is_mapped q.mapping && ltb now q.next_probe) ≡ false
    → let (ok, v, t) = publish succeeds frame w s in
      (ok ≡ true)
      × ((k : ℕ) × Maps v t k
          × ReadAs frame v.sequence
              (last_of q k (t.objects k).size)
              out
              (read now true (quiet t) t out q))
unfolding read Adopted
read-publish frame w s now out q small even inv good due =
    let (ok, (k, m, h)) = publish-Holds frame w s small even inv in
    let (_, v, t) = publish succeeds frame w s in
    let large : header_size ≤ (t.objects k).size = ground (arith, h.size) in
    let last = last_of q k (t.objects k).size in
    let (adopted, mapping, size, known) =
      refresh_mapping-Adopted now t k q good due m.named large in
    let (_, r) = refresh_mapping false now true t q in
    let even' : (t.objects k).header.sequence % 2 ≡ 0 = rw (m.sequence, m.even) refl in
    let seen =
      subst
        (λ o.
          ReadAs frame (t.objects k).header.sequence r.last_seq out
            (read_mapped (quiet t) t out o r))
        (sym mapping) (read_mapped-ReadAs frame t k out r h m.named even' size) in
    let result =
      if_rule (ReadAs frame v.sequence last out) (not (refresh_mapping false now true t q).0) _ _
        (λ no. absurd (ground (arith, no, adopted)))
        (λ _.
          subst (λ n. ReadAs frame n last out (read_mapped (quiet t) t out r.mapping r)) m.sequence
            (subst
              (λ l.
                ReadAs frame (t.objects k).header.sequence l out
                  (read_mapped (quiet t) t out r.mapping r))
              known seen)) in
    (ok, (k, m, result))
