-- ===== src/Db.antt =====
-- The database layer (server/app/db): the rows of db/models.py and the operations of db/repo.py.
pub mod Rows
pub mod Ledger
pub mod Positions
pub mod State
pub mod Stats
pub mod PaperBook
