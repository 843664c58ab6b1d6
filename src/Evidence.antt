-- ===== src/Evidence.antt =====
-- The evidence for the gate on host control: src/backend/evidence/.
pub mod Board
pub mod BusRole
mod Tests
