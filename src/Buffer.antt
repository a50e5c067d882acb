-- ===== src/Buffer.antt =====
-- The buffer component: src/buffer and include/ihmc/yovariables/buffer.
pub mod KeyPoints
pub mod Array
pub mod Bounds
pub mod Entry
pub mod Ring
