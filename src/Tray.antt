-- ===== src/Tray.antt =====
-- What a tray menu entry makes the daemon do: src/daemon/tray_actions.cpp.
pub mod Plan
