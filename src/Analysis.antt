-- ===== src/Analysis.antt =====
-- The analysis layer: sidecar-go/analysis.
pub mod Database
pub mod Endpoint
pub mod Bottleneck
pub mod Comparator
pub mod Regression
pub mod Explain
