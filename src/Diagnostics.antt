-- ===== src/Diagnostics.antt =====
-- backend/app/diagnostics.py: the context of a diagnosis, and the diagnosis by rules.
pub mod Context
pub mod Blocks
pub mod Heuristic
pub mod Explained
pub mod Answer
