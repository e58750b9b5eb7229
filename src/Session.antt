-- ===== src/Session.antt =====
-- internal/session: the session record, the errors, the in-memory store and the canonical ids.
pub mod Model
pub mod Store
pub mod Id
