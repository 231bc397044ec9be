-- ===== src/Chat.antt =====
-- The voice channel's chat: src/daemon/chat_runtime.h, and its subscription in src/daemon/main.cpp.
pub mod Text
pub mod Defs
pub mod Messages
pub mod Events
pub mod Timing
pub mod Follow
