-- ===== src/Config.antt =====
-- internal/config/config.go: the configuration, its defaults, its validation and its loading from
-- the process environment.
pub mod Model
pub mod Parse
pub mod Load
pub mod Laws
