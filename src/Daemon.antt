-- ===== src/Daemon.antt =====
-- The main loop of the daemon: src/daemon/main.cpp.
pub mod TrayLoop
pub mod Loop
pub mod Displayed
pub mod Chat
pub mod Steps
pub mod TraySteps
pub mod Published
pub mod Start
pub mod Balanced
