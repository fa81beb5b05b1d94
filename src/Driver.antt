-- ===== src/Driver.antt =====
-- be/runtime/jdbc_driver_manager.{h,cpp}: the manager of JDBC driver files.
pub mod FileName
pub mod Manager
pub mod Started
pub mod Swept
mod SweptTests
pub mod Lost
mod Tests
mod InterleavingTests
mod LocksTests
mod KeptTests
