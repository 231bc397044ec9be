-- ===== src/Socket.antt =====
-- Reading and writing on a local socket.
pub mod Defs
pub mod Transfer
pub mod Words
