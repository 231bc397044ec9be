-- ===== src/Swapchain.antt =====
-- The table of swapchains of the Vulkan layer: src/layer/swapchain_bookkeeping.h.
pub mod Defs
pub mod Table
