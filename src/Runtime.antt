-- ===== src/Runtime.antt =====
-- internal/runtime: sandboxes on a container platform.
pub mod Model
