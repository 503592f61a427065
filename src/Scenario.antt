-- ===== src/Scenario.antt =====
-- The scenarios of sim/run_sil.py: their values, and the checks on their devices.
pub mod Values
pub mod Faults
pub mod Devices
pub mod Accepted
pub mod Timeline
pub mod Expect
pub mod Validate
pub mod Sound
pub mod Runnable
