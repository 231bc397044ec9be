-- ===== src/Overlay.antt =====
-- src/common/overlay_frame_shm.h.
pub mod Frame
pub mod Writer
pub mod Reader
pub mod Mapped
pub mod Shown
