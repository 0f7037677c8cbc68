-- ===== src/Query.antt =====
-- Running queries: apps/server/src/query.
pub mod Execution
mod Tests
