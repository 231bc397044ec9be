-- ===== src/Overlay/Writer.antt =====
-- `OverlayFrameWriter` of src/common/overlay_frame_shm.h. `fd_` is set exactly if the mapping is, but for a
-- moment within `ensure_mapping`, and is left out.
use sigaw.Prelude.{
  ℕ, ◌+◌, ◌%◌, ◌^◌, ◌==◌, Bool, true, false, not, ◌&&◌, ◌++◌, Option, none, some, if◌then◌else◌,
  length, take, drop, str_eq,
}
use sigaw.Protocol.{sigaw_overlay_magic, sigaw_version}
use sigaw.Overlay.Frame.{
  OverlayFrameSnapshot, overlay_anchor, SigawOverlayFrameHeader, header_size, zero_header, Object,
  Store, put_object, resized, shm_open, shm_unlink,
}

-- `mapping` is the inode of the object that is mapped.
pub record OverlayFrameWriter : Type 0 where
  pub mapping : Option ℕ
  pub mapped_size : ℕ
  pub sequence : ℕ

-- Whether `shm_open`, `ftruncate` and `mmap` succeed.
pub record OpenResult : Type 0 where
  pub opened : Bool
  pub truncated : Bool
  pub mapped : Bool

abbrev pub succeeds : OpenResult
succeeds = record { opened = true; truncated = true; mapped = true }

unfoldable pub close : OverlayFrameWriter → Store → OverlayFrameWriter × Store
close w store = (
  record w { mapping = none; mapped_size = 0 },
  if w.mapped_size == 0 then store else shm_unlink store,
)

-- The header of an object that was just mapped.
abbrev pub initial_header : ℕ → SigawOverlayFrameHeader
initial_header sequence = record zero_header {
  magic = sigaw_overlay_magic;
  version = sigaw_version;
  sequence = sequence;
}

-- `ensure_mapping` behind `close()`.
unfoldable pub open_mapping :
    OpenResult → ℕ → OverlayFrameWriter → Store → Bool × OverlayFrameWriter × Store
open_mapping r required_size w store =
    let (k, opened) = shm_open store in
    let o = resized required_size (opened.objects k) in
    if not r.opened
    then (false, w, store)
    else if not r.truncated
    then (false, w, opened)
    else if not r.mapped
    then (false, w, put_object k o opened)
    else (
      true,
      record w { mapping = some k; mapped_size = required_size },
      put_object k (record o { header = initial_header w.sequence }) opened,
    )

unfoldable pub is_mapped : Option ℕ → Bool
is_mapped none = false
is_mapped (some k) = true

unfoldable pub ensure_mapping :
    OpenResult → ℕ → OverlayFrameWriter → Store → Bool × OverlayFrameWriter × Store
unfolding open_mapping
ensure_mapping r required_size w store =
    let (c, s) = close w store in
    if is_mapped w.mapping && w.mapped_size == required_size
    then (true, w, store)
    else open_mapping r required_size c s

-- `frame.visible ? n : 0u`.
abbrev pub if_visible : OverlayFrameSnapshot → ℕ → ℕ
if_visible frame n = if frame.visible then n else 0

abbrev pub byte_size_of : OverlayFrameSnapshot → ℕ
byte_size_of frame = if_visible frame (length frame.rgba)

-- The comparisons of `same_payload` with what is mapped.
unfoldable pub same_payload : OverlayFrameSnapshot → ℕ → ℕ → Object → Bool
same_payload frame byte_size mapped_size o =
    mapped_size == header_size + byte_size
    && o.header.magic == sigaw_overlay_magic
    && o.header.version == sigaw_version
    && o.header.visible == if_visible frame 1
    && o.header.anchor == overlay_anchor frame.position
    && o.header.margin_px == frame.margin_px
    && o.header.width == if_visible frame frame.width
    && o.header.height == if_visible frame frame.height
    && o.header.stride == if_visible frame frame.stride
    && o.header.byte_size == byte_size
    && str_eq (take byte_size o.pixels) (take byte_size frame.rgba)

-- The stores between the two stores of the sequence number, and those.
unfoldable pub with_frame : OverlayFrameSnapshot → ℕ → ℕ → Object → Object
with_frame frame byte_size sequence o = record o {
  header = record {
    magic = sigaw_overlay_magic;
    version = sigaw_version;
    sequence = sequence;
    visible = if_visible frame 1;
    anchor = overlay_anchor frame.position;
    margin_px = frame.margin_px;
    width = if_visible frame frame.width;
    height = if_visible frame frame.height;
    stride = if_visible frame frame.stride;
    byte_size = byte_size % 2 ^ 32;
  };
  pixels = take byte_size frame.rgba ++ drop byte_size o.pixels;
}

-- `publish` behind `ensure_mapping`, on what is mapped, which is something then.
unfoldable pub write_frame :
    OverlayFrameSnapshot → Option ℕ → OverlayFrameWriter → Store → OverlayFrameWriter × Store
unfolding same_payload with_frame
write_frame frame none w store = (w, store)
write_frame frame (some k) w store =
    let next = (w.sequence + 2) % 2 ^ 64 in
    if same_payload frame (byte_size_of frame) w.mapped_size (store.objects k)
    then (w, store)
    else (
      record w { sequence = next },
      put_object k (with_frame frame (byte_size_of frame) next (store.objects k)) store,
    )

unfoldable pub publish :
    OpenResult
    → OverlayFrameSnapshot
    → OverlayFrameWriter
    → Store
    → Bool × OverlayFrameWriter × Store
unfolding ensure_mapping write_frame
publish r frame w store =
    let (ok, v, s) = ensure_mapping r (header_size + byte_size_of frame) w store in
    let (u, t) = write_frame frame v.mapping v s in if not ok then (false, v, s) else (true, u, t)
