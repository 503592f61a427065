-- ===== src/Protocol.antt =====
-- backend/app/protocol.py: the wire protocol.
pub mod Text
pub mod Flags
pub mod Firmware
pub mod MsgType
pub mod Header
pub mod Payload
pub mod Frame
pub mod Stream
