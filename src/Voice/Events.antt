-- ===== src/Voice/Events.antt =====
-- `process_voice_event` of src/daemon/voice_runtime.h.
pub mod Defs
pub mod Users
pub mod Effect
pub mod Invariant
