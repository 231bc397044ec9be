-- ===== src/Overlay/Reader.antt =====
-- `OverlayFrameReader` of src/common/overlay_frame_shm.h. Times are nanoseconds of the steady clock.
use sigaw.Prelude.{
  ℕ, zero, suc, ◌+◌, ◌==◌, ltb, Bool, true, false, not, ◌&&◌, Option, none, some, if◌then◌else◌,
  Bytes, take,
}
use sigaw.Protocol.{sigaw_overlay_magic, sigaw_version}
use sigaw.Shm.Seqlock.{is_odd}
use sigaw.Overlay.Frame.{
  OverlayFrameSnapshot, overlay_position, SigawOverlayFrameHeader, header_size, Store,
}
use sigaw.Overlay.Writer.{is_mapped}

-- `mapped_stat` is the inode and the size; `st_dev` is the same for all.
pub record OverlayFrameReader : Type 0 where
  pub mapping : Option ℕ
  pub mapped_size : ℕ
  pub mapped_stat : ℕ × ℕ
  pub stat_valid : Bool
  pub version_warned : Bool
  pub last_seq : ℕ
  pub probe_interval : ℕ
  pub next_probe : ℕ

unfoldable pub close : OverlayFrameReader → OverlayFrameReader
close r = record r {
  mapping = none;
  mapped_size = 0;
  stat_valid = false;
  version_warned = false;
  last_seq = 0;
}

unfoldable pub adopt_mapping : Bool → ℕ → ℕ → OverlayFrameReader → Bool × OverlayFrameReader
adopt_mapping mmap_succeeds k size r = if not mmap_succeeds then (false, r) else (
  true,
  record (close r) {
    mapping = some k;
    mapped_size = size;
    mapped_stat = (k, size);
    stat_valid = true;
  },
)

abbrev pub close_mapped : OverlayFrameReader → OverlayFrameReader
close_mapped r = if is_mapped r.mapping then close r else r

abbrev pub same_object : ℕ × ℕ → ℕ × ℕ → Bool
same_object a b = a.0 == b.0 && a.1 == b.1

-- `refresh_mapping` from `shm_open` on, which finds the object that has the name. That `fstat` succeeds is
-- supposed.
unfoldable pub probed : Bool → Store → Option ℕ → OverlayFrameReader → Bool × OverlayFrameReader
unfolding adopt_mapping
probed mmap_succeeds store none r = (false, close_mapped r)
probed mmap_succeeds store (some k) r =
    let size = (store.objects k).size in
    if ltb size header_size
    then (false, close_mapped r)
    else if is_mapped r.mapping && r.stat_valid && same_object r.mapped_stat (k, size)
    then (true, r)
    else adopt_mapping mmap_succeeds k size r

unfoldable pub refresh_mapping :
    Bool → ℕ → Bool → Store → OverlayFrameReader → Bool × OverlayFrameReader
unfolding probed
refresh_mapping force_probe now mmap_succeeds store r =
    if not force_probe && is_mapped r.mapping && ltb now r.next_probe
    then (true, r)
    else probed mmap_succeeds store store.named (record r { next_probe = now + r.probe_interval })

-- What one attempt sees of the mapped object while the writer may be at work: the sequence number before, the
-- header, the pixels, and the sequence number after.
pub record View : Type 0 where
  pub seq1 : ℕ
  pub header : SigawOverlayFrameHeader
  pub pixels : Bytes
  pub seq2 : ℕ

-- `snapshot.visible ? n : 0u`.
abbrev pub if_seen : View → ℕ → ℕ
if_seen v n = if v.header.visible == 0 then 0 else n

-- The copy into `out`.
abbrev pub copied : View → OverlayFrameSnapshot → OverlayFrameSnapshot
copied v out = record out {
  visible = not (v.header.visible == 0);
  position = overlay_position v.header.anchor;
  margin_px = v.header.margin_px;
  width = if_seen v v.header.width;
  height = if_seen v v.header.height;
  stride = if_seen v v.header.stride;
  rgba = take (if_seen v v.header.byte_size) v.pixels;
}

-- Whether `read` succeeds, whether it reports a change, the frame, and the reader.
abbrev pub ReadResult : Type 0
ReadResult = Bool × Bool × OverlayFrameSnapshot × OverlayFrameReader

-- The attempts that are left, on what they see.
unfoldable pub read_attempts :
    ℕ → (ℕ → View) → OverlayFrameSnapshot → OverlayFrameReader → ReadResult
read_attempts zero views out r = (false, false, out, r)
read_attempts (suc left) views out r =
    let v = views 0 in
    let retry = read_attempts left (λ i. views (suc i)) in
    let copy = copied v out in
    if is_odd v.seq1
    then retry out r
    else if v.seq1 == r.last_seq
    then (true, false, out, r)
    else if ltb r.mapped_size (header_size + if_seen v v.header.byte_size)
    then (false, false, out, record r { next_probe = 0 })
    else if v.seq1 == v.seq2
    then (true, true, record copy { sequence = v.seq1 }, record r { last_seq = v.seq1 })
    else retry copy r

-- `read` behind `refresh_mapping`, on what is mapped, which is something then.
unfoldable pub read_mapped :
    (ℕ → View) → Store → OverlayFrameSnapshot → Option ℕ → OverlayFrameReader → ReadResult
unfolding read_attempts
read_mapped views store out none r = (false, false, out, r)
read_mapped views store out (some k) r =
    let header = (store.objects k).header in
    if not (header.magic == sigaw_overlay_magic)
    then (false, false, out, r)
    else if not (header.version == sigaw_version)
    then (false, false, out, record r { version_warned = true })
    else read_attempts 3 views out r

unfoldable pub read :
    ℕ → Bool → (ℕ → View) → Store → OverlayFrameSnapshot → OverlayFrameReader → ReadResult
unfolding refresh_mapping read_mapped
read now mmap_succeeds views store out r =
    let (ok, q) = refresh_mapping false now mmap_succeeds store r in
    if not ok then (false, false, out, q) else read_mapped views store out q.mapping q

-- `load` is what the relaxed load of the sequence number gives.
unfoldable pub has_changed : ℕ → OverlayFrameReader → Bool
has_changed load r = is_mapped r.mapping && not (load == r.last_seq)
