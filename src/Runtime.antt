-- ===== src/Runtime.antt =====
-- be/runtime without the driver manager: type descriptors and the state of a running query.
pub mod Types
pub mod State
mod Tests
