-- ===== src/Json.antt =====
-- nlohmann::json and src/daemon/json_utils.h.
pub mod Interface
pub mod Utils
