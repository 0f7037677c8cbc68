-- ===== src/Transfer/Csv.antt =====
-- CSV, as the export writes it and the import reads it. Texts are lists of UTF-16 code units.
pub mod Writer
pub mod Reader
pub mod RoundTrip
pub mod Chunks
