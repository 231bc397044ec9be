-- ===== src/Launcher.antt =====
-- The LD_PRELOAD list of sigaw-run: src/run/launcher_env.cpp.
pub mod Defs
pub mod Words
