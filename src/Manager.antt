-- ===== src/Manager.antt =====
-- internal/manager: the sandbox lifecycle.
pub mod World
pub mod Create
pub mod Lifecycle
pub mod Ensure
pub mod Activity
pub mod Sweep
