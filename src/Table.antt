-- ===== src/Table.antt =====
-- be/table: slot, tuple and table descriptors, and the table of them.
pub mod Descriptors
pub mod Lookup
mod Tests
