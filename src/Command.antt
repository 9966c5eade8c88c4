-- ===== src/Command.antt =====
-- cmd/rep: the configuration (cmd/rep/config/config.go) and what cmd/rep/main.go makes of it: the
-- addresses of the cell and of its servers, the presence that is announced, the clients, and the group of
-- members that main invokes. The run of this group is not modelled.
pub mod StackMap
pub mod StackMaps
pub mod Settings
pub mod Announced
pub mod Presence
pub mod Startup
pub mod Main
pub mod Started
