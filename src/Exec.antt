-- ===== src/Exec.antt =====
-- internal/exec: commands and files in a sandbox.
pub mod Model
pub mod Shell
pub mod Buffers
pub mod Output
pub mod Remote
pub mod Jobs
pub mod Files
