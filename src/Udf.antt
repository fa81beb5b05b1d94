-- ===== src/Udf.antt =====
-- be/udf: the Java virtual machine as the scanner calls it.
pub mod Jni
pub mod Start
pub mod Helper
pub mod Laws
pub mod Refs
pub mod Ownership
pub mod Sample
mod Tests
