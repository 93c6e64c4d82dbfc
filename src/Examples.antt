-- ===== src/Examples.antt =====
-- Concrete values for the theorems: an arithmetic that meets the laws, and each theorem with
-- hypotheses at an input that meets them.
pub mod Fixed
mod Orders
mod Breakers
mod Reconciling
mod Engines
mod Ticks
mod Sessions
mod Tables
mod Servers
mod Controls
mod Broker
