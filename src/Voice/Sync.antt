-- ===== src/Voice/Sync.antt =====
-- The pending channel sync of src/daemon/voice_runtime.h.
pub mod Defs
pub mod Invariant
pub mod Progress
