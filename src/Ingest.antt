-- ===== src/Ingest.antt =====
-- backend/app/ingest.py: what arrives from devices, and what is sent to them.
pub mod Stats
pub mod State
pub mod Totals
pub mod Push
pub mod Dispatch
