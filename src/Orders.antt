-- ===== src/Orders.antt =====
-- The order layer (server/app/orders): requests, hard guardrails, the loss circuit breaker, the
-- service that submits, and the reconciliation of positions.
pub mod Models
pub mod Guardrails
pub mod Breaker
pub mod Context
pub mod Service
pub mod Reconcile
