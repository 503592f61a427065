-- ===== src/Protocol/Payload/Types.antt =====
-- The dataclasses of the payloads, and the tables of names.
use ecu_telemetry.Prelude.{ℕ, List, [], ◌∷◌, ◌==◌, if◌then◌else◌}
use ecu_telemetry.Python.Floats.{Floats}
use ecu_telemetry.Python.Text.{Text, text}
use ecu_telemetry.Python.Decimal.{str_int}
use ecu_telemetry.Python.Struct.{Bytes}

-- `table.get(n, str(n))`
unfoldable pub name_of : List (ℕ × Text) → ℕ → Text
unfolding str_int
name_of [] n = str_int n
name_of ((k, name) ∷ table) n = if k == n then name else name_of table n

abbrev pub state_names : List (ℕ × Text)
state_names = (0, text "IDLE") ∷ (1, text "RUNNING") ∷ (2, text "DEGRADED") ∷ (3, text "FAULT") ∷ []

abbrev pub log_levels : List (ℕ × Text)
log_levels = (0, text "debug") ∷ (1, text "info") ∷ (2, text "warn") ∷ (3, text "error") ∷ []

abbrev pub config_ack_status : List (ℕ × Text)
config_ack_status = (0, text "applied") ∷ (1, text "rejected") ∷ []

abbrev pub fw_ack_status : List (ℕ × Text)
fw_ack_status =
    (0, text "accepted") ∷ (1, text "downloading") ∷ (2, text "applied") ∷ (3, text "rejected") ∷ []

pub record Hello : Type 0 where
  pub fw_string : Text
  pub hw_model : Text
  pub config_version : ℕ
  pub telemetry_hz : ℕ

pub record Heartbeat : Type 0 where
  pub uptime_s : ℕ
  pub frames_sent : ℕ
  pub config_version : ℕ
  pub reconnects : ℕ

pub record Log : Type 0 where
  pub level : ℕ
  pub message : Text

pub record ConfigAck : Type 0 where
  pub config_version : ℕ
  pub status : ℕ

pub record FwUpdate : Type 0 where
  pub target_version : Text
  pub image_size_bytes : ℕ
  pub image_crc : ℕ

pub record FwAck : Type 0 where
  pub status : ℕ
  pub version : Text

pub record FaultInject : Type 0 where
  pub set_flags : ℕ
  pub clear_flags : ℕ
  pub duration_ms : ℕ

pub record FaultAck : Type 0 where
  pub active_flags : ℕ

pub record Cmd : Type 0 where
  pub cmd : ℕ

module _ ⦃fl : Floats⦄ where
  open fl use {Float}

  pub record Telemetry : Type 0 where
    pub rpm : Float
    pub temp_c : Float
    pub current_a : Float
    pub voltage_v : Float
    pub vibration_g : Float
    pub speed_kph : Float
    pub lat : Float
    pub lon : Float
    pub fault_flags : ℕ
    pub state : ℕ

  pub record ConfigSet : Type 0 where
    pub config_version : ℕ
    pub telemetry_hz : ℕ
    pub log_level : ℕ
    pub rpm_limit : Float
    pub temp_limit_c : Float
    pub current_limit_a : Float

  -- The subclasses of Payload; `raw` is the bytes of a message type that has no class.
  pub data Payload : Type 0 where
    telemetry : Telemetry → Payload
    hello : Hello → Payload
    heartbeat : Heartbeat → Payload
    log : Log → Payload
    config_set : ConfigSet → Payload
    config_ack : ConfigAck → Payload
    fw_update : FwUpdate → Payload
    fw_ack : FwAck → Payload
    fault_inject : FaultInject → Payload
    fault_ack : FaultAck → Payload
    cmd : Cmd → Payload
    raw : Bytes → Payload
