-- ===== src/Overlay/Frame.antt =====
-- The frames of src/common/overlay_frame_shm.h, their header in src/common/protocol.h, and the shared memory
-- objects that hold them.
use sigaw.Prelude.{
  ℕ, ◌+◌, ◌-◌, ◌==◌, Bool, [], ◌++◌, Option, none, some, if◌then◌else◌, Bytes, length, take,
  replicate,
}
use sigaw.Config.Types.{OverlayPosition, top_left, top_right, bottom_left, bottom_right}

pub record OverlayFrameSnapshot : Type 0 where
  pub visible : Bool
  pub position : OverlayPosition
  pub margin_px : ℕ
  pub width : ℕ
  pub height : ℕ
  pub stride : ℕ
  pub sequence : ℕ
  pub rgba : Bytes

-- `SIGAW_OVERLAY_ANCHOR_*` are 0 to 3.
unfoldable pub overlay_anchor : OverlayPosition → ℕ
overlay_anchor top_left = 0
overlay_anchor top_right = 1
overlay_anchor bottom_left = 2
overlay_anchor bottom_right = 3

unfoldable pub overlay_position : ℕ → OverlayPosition
overlay_position anchor =
    if anchor == 0
    then top_left
    else if anchor == 1
    then top_right
    else if anchor == 2
    then bottom_left
    else if anchor == 3
    then bottom_right
    else top_right

-- The header without its padding.
pub record SigawOverlayFrameHeader : Type 0 where
  pub magic : ℕ
  pub version : ℕ
  pub sequence : ℕ
  pub visible : ℕ
  pub anchor : ℕ
  pub margin_px : ℕ
  pub width : ℕ
  pub height : ℕ
  pub stride : ℕ
  pub byte_size : ℕ

-- `sizeof(SigawOverlayFrameHeader)`.
abbrev pub header_size : ℕ
header_size = 64

-- `memset(header, 0, sizeof(*header))`.
abbrev pub zero_header : SigawOverlayFrameHeader
zero_header = record {
  magic = 0;
  version = 0;
  sequence = 0;
  visible = 0;
  anchor = 0;
  margin_px = 0;
  width = 0;
  height = 0;
  stride = 0;
  byte_size = 0;
}

-- A shared memory object: its size, and its bytes as a header and the pixels behind it.
pub record Object : Type 0 where
  pub size : ℕ
  pub header : SigawOverlayFrameHeader
  pub pixels : Bytes

-- The objects by their inode, the one that has the name, and an inode that is free. An object that has lost
-- its name is still there for those who have it mapped.
pub record Store : Type 0 where
  pub objects : ℕ → Object
  pub named : Option ℕ
  pub next : ℕ

unfoldable pub put_object : ℕ → Object → Store → Store
put_object k o store = record store { objects = λ i. if i == k then o else store.objects i }

-- `ftruncate`: new bytes are 0.
unfoldable pub resized : ℕ → Object → Object
resized n o =
    let kept = take (n - header_size) o.pixels in
    record o { size = n; pixels = kept ++ replicate ((n - header_size) - length kept) 0 }

-- The object that has the name, made empty if there is none.
unfoldable pub shm_open : Store → ℕ × Store
unfolding put_object
shm_open store = elim store.named as (λ _. ℕ × Store) [
  | some k ↦ (k, store)
  | none ↦ (
    store.next,
    put_object store.next (record { size = 0; header = zero_header; pixels = [] })
        (record store { named = some store.next; next = store.next + 1 }),
  )
]

unfoldable pub shm_unlink : Store → Store
shm_unlink store = record store { named = none }
