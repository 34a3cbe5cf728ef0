-- ===== src/Apps.antt =====
-- The app manager of control/manager.go and control/rename.go: the ports that apps are given, and how
-- an app is created, renamed and deleted.
pub mod Ports
pub mod Create
pub mod Rename
pub mod SoftDelete
mod Tests
