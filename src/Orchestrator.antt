-- ===== src/Orchestrator.antt =====
-- cmd/orchestrator/main.go: the start of the program, the requests it serves and the loops that run
-- beside them.
pub mod Front
pub mod Wiring
pub mod Running
pub mod Start
