-- ===== src/Control.antt =====
-- Host control: src/backend/ControlCommandEncoder.* and src/backend/control/.
pub mod Encoder
pub mod Slew
pub mod Cycle
pub mod Audit
pub mod Runtime
mod Tests
