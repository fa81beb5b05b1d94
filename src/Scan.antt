-- ===== src/Scan.antt =====
-- be/operator and be/source: how chunks are read from a data source.
pub mod ChunkSource
pub mod Batch
pub mod DataSource
pub mod Scanned
pub mod Operators
pub mod Names
pub mod Whole
pub mod Located
mod Tests
mod WholeTests
