-- ===== src/Ingress.antt =====
-- From the bytes of the port to batches of records: src/backend/transport.
pub mod Storage
pub mod Typed
pub mod Legacy
pub mod Projection
mod Tests
