-- ===== src/Tests.antt =====
-- The theorems at concrete inputs, and runs of the definitions.
pub mod Threads
pub mod World
pub mod Programs
pub mod Thinned
pub mod Functions
pub mod Modules
pub mod Missed
pub mod Examples
pub mod Instrument
