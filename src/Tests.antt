-- ===== src/Tests.antt =====
-- Runs of the model on small inputs.
mod Values
mod KeyPoints
mod Entries
mod Rings
mod Names
mod Filters
mod Registries
mod Enums
mod Parameters
