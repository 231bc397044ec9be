-- ===== src/Discord.antt =====
-- The connection to Discord: src/daemon/discord_ipc.h.
pub mod Frame
pub mod Wire
pub mod Inbox
pub mod Wait
pub mod Arrivals
pub mod Waiting
pub mod Deadline
pub mod Call
pub mod Requests
pub mod Replies
pub mod Session
pub mod AuthState
pub mod Authorize
pub mod Connection
