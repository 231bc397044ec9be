-- ===== src/Control.antt =====
-- The control socket: src/daemon/control_server.h and src/ctl/main.cpp.
pub mod Wire
pub mod Server
pub mod Client
pub mod Exchange
pub mod Pending
