-- ===== src/Config.antt =====
-- The configuration: src/common/config.h.
pub mod Types
pub mod Text
pub mod Apply
pub mod File
pub mod Save
pub mod Effect
pub mod Parsed
pub mod Profiles
pub mod Sections
pub mod Rewrite
pub mod Store
pub mod Trimmed
pub mod Items
pub mod Lines
pub mod Roundtrip
