-- ===== src/Realtime.antt =====
-- Live monitoring: sidecar-go/realtime.
pub mod Sort
pub mod Stats
pub mod Hub
pub mod Client
