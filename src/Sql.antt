-- ===== src/Sql.antt =====
-- Splitting a text of SQL into its statements, for both database providers.
pub mod Slices
pub mod Trimming
pub mod Pieces
pub mod Postgres
pub mod Coverage
pub mod Quoting
pub mod Mysql
pub mod Ordering
pub mod Directives
pub mod MysqlPieces
mod Tests
