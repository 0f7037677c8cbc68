-- ===== src/Http.antt =====
-- The HTTP kernel of the server: apps/server/src/http.
pub mod Paging
mod Tests
