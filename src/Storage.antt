-- ===== src/Storage.antt =====
-- The internal SQLite database: packages/internal-sqlite/src.
pub mod Migrations
mod Tests
