-- ===== src/Variable.antt =====
-- src/variable/ and include/ihmc/yovariables/variable/: the variables themselves.
pub mod Integer
pub mod Long
pub mod Boolean
pub mod Double
pub mod Cell
pub mod Enum
