-- ===== src/Engine.antt =====
-- class AnomalyEngine of backend/app/anomaly.py.
pub mod Alerts
pub mod Thresholds
pub mod Ewma
pub mod Evaluate
