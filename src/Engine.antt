-- ===== src/Engine.antt =====
-- The trading engine (server/app/engine): costs and the entry gate, the market regime, forced
-- exits, sizing, the paper book, indicators, the screener, the universe and the tick.
pub mod Costs
pub mod Regime
pub mod Indicators
pub mod Exits
pub mod Screener
pub mod Judge
pub mod Allocator
pub mod Universe
pub mod Pipeline
pub mod Symbols
pub mod Calibration
pub mod Evaluation
pub mod Paper
