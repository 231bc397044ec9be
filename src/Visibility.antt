-- ===== src/Visibility.antt =====
-- Which users the overlay shows: src/layer/overlay_visibility.h.
pub mod Defs
pub mod Sorting
pub mod Selection
pub mod Priority
