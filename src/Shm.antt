-- ===== src/Shm.antt =====
-- The voice state in shared memory: src/daemon/shm_writer.h, `update_shm` of src/daemon/main.cpp and
-- the read of src/layer/shm_reader.h.
pub mod Strings
pub mod Writer
pub mod Fill
pub mod Entries
pub mod Image
pub mod Seqlock
pub mod Consistent
