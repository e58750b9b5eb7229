-- ===== src/Tests.antt =====
-- The theorems at concrete inputs: a small platform, its sessions, and one run of each component.
mod Platform
mod Store
mod Manager
mod Reaper
mod Config
mod Edit
mod Ids
mod Autoscaler
mod Pool
mod Exec
mod Netpolicy
mod Jobs
mod Kube
mod Mcp
mod Api
mod Orchestrator
