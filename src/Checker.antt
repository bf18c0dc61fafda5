-- ===== src/Checker.antt =====
-- internal/checker: the destination check that explains where a flow is routed.
pub mod Scope
pub mod Trace
pub mod Providers
