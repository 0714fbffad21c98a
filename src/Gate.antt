-- ===== src/Gate.antt =====
-- The performance gate: sidecar-go/analysis/gate.
pub mod Types
pub mod Findings
pub mod Checks
pub mod Build
pub mod Evaluation
pub mod Verdict
pub mod Induction
pub mod Trust
pub mod Thresholds
pub mod Totals
pub mod Order
pub mod Report
pub mod Endpoints
