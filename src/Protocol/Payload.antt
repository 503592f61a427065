-- ===== src/Protocol/Payload.antt =====
-- The payload classes of backend/app/protocol.py, with their pack and unpack.
pub mod Types
pub mod Codec
pub mod RoundTrip
