-- ===== src/Voice.antt =====
-- The daemon's voice channel state: src/daemon/voice_runtime.h and the structs of discord_ipc.h.
pub mod State
pub mod Ipc
pub mod Sync
pub mod Events
pub mod Ledger
pub mod Balanced
