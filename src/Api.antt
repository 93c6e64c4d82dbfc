-- ===== src/Api.antt =====
-- The boundary of the server (server/app/api, server/app/main.py): what a tick, a request and a
-- start of the process do with the database, the broker and the order service.
pub mod World
pub mod Reconciling
pub mod Startup
pub mod Controls
pub mod Hours
pub mod Judging
pub mod Tick
