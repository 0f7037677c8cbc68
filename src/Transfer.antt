-- ===== src/Transfer.antt =====
-- Import and export of rows: packages/import/src/index.ts and packages/export/src/index.ts.
pub mod Csv
pub mod Cells
pub mod Batches
pub mod Import
mod Tests
