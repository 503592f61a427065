-- ===== src/Protocol/MsgType.antt =====
-- class MsgType of backend/app/protocol.py.
use ecu_telemetry.Prelude.{ℕ}

abbrev pub telemetry : ℕ
telemetry = 0x01

abbrev pub hello : ℕ
hello = 0x02

abbrev pub heartbeat : ℕ
heartbeat = 0x03

abbrev pub log : ℕ
log = 0x04

abbrev pub config_set : ℕ
config_set = 0x10

abbrev pub config_ack : ℕ
config_ack = 0x11

abbrev pub fw_update : ℕ
fw_update = 0x12

abbrev pub fw_ack : ℕ
fw_ack = 0x13

abbrev pub fault_inject : ℕ
fault_inject = 0x14

abbrev pub fault_ack : ℕ
fault_ack = 0x15

abbrev pub cmd : ℕ
cmd = 0x20
