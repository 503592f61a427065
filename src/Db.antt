-- ===== src/Db.antt =====
-- class Database of backend/app/db.py: the tables that the ingest and the engine write, each as the
-- list of its rows, the newest first. A statement's time is its caller's clock reading.
pub mod Types
pub mod Alerts
pub mod Devices
pub mod Config
pub mod Firmware
pub mod Samples
pub mod Telemetry
pub mod Diagnoses
