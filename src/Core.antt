-- ===== src/Core.antt =====
-- The server's foundations (server/app/core): the trading mode, the calendar and the gate of
-- repeated alerts.
pub mod Modes
pub mod Calendar
pub mod Alerts
pub mod Settings
