-- ===== src/World.antt =====
-- The state of the backend's process: database, engine and event bus, and what the bus carries.
pub mod Types
