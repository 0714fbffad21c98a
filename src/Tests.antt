-- ===== src/Tests.antt =====
-- The theorems at concrete runs, policies and events. The floats are thousandths.
mod Data
mod Gate
mod Analysis
mod Policy
mod Realtime
mod Hub
mod Duckload
mod Orchestrator
mod Storage
mod Server
mod Queries
mod Catalog
mod Handlers
mod Commands
