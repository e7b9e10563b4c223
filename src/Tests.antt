-- ===== src/Tests.antt =====
-- Witnesses of the theorems at concrete inputs, with the parameters instantiated.
mod Intervals
mod Snapshots
mod Bytes
mod Frames
mod Walks
mod Modules
mod Mappings
mod Processes
