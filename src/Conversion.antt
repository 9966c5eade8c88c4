-- ===== src/Conversion.antt =====
-- conversion_helpers.go: what the rep reads from containers, and the run requests that it builds.
-- `lib` stands for the library functions that the code calls.
pub mod Tags
pub mod Runs
pub mod Mounts
pub mod Binds
pub mod Requests
