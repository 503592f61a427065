-- ===== src/Db/Types.antt =====
-- The rows of the tables, after SCHEMA of backend/app/db.py.
use ecu_telemetry.Prelude.{ℕ, Bool, Option, List}
use ecu_telemetry.Python.Floats.{Floats}
use ecu_telemetry.Python.Text.{Text}
use ecu_telemetry.Bus.{Time}

-- The status column of alerts.
pub data AlertStatus : Type 0 where
  opened acked resolved : AlertStatus

pub record LogRow : Type 0 where
  pub id : ℕ
  pub device_id : Text
  pub ts : Time
  pub device_ts_ms : Option ℕ
  pub level : ℕ
  pub message : Text

pub record Firmware : Type 0 where
  pub version : Text
  pub notes : Text
  pub size_bytes : ℕ
  pub crc : ℕ
  pub created_at : Time

-- The history column holds one entry for each status that the job has had.
pub record FwJob : Type 0 where
  pub id : ℕ
  pub device_id : Text
  pub target_version : Text
  pub from_version : Option Text
  pub status : Text
  pub created_at : Time
  pub updated_at : Time
  pub history : List (Text × Time)

pub record FaultInjection : Type 0 where
  pub id : ℕ
  pub device_id : Text
  pub set_flags : ℕ
  pub clear_flags : ℕ
  pub duration_ms : ℕ
  pub created_at : Time
  pub ack_flags : Option ℕ
  pub acked_at : Option Time

module _ ⦃fl : Floats⦄ where
  open fl use {Float}

  pub record Device : Type 0 where
    pub device_id : Text
    pub hw_model : Option Text
    pub fw_version : Option Text
    pub fw_version_u32 : Option ℕ
    pub state : ℕ
    pub online : Bool
    pub first_seen : Time
    pub last_seen : Option Time
    pub last_hello : Option Time
    pub last_heartbeat : Option Time
    pub telemetry_hz : Option ℕ
    pub uptime_s : Option ℕ
    pub device_reconnects : ℕ
    pub reported_config_version : ℕ
    pub lat : Option Float
    pub lon : Option Float

  pub record StatsRow : Type 0 where
    pub device_id : Text
    pub frames_rx : ℕ
    pub bad_crc : ℕ
    pub seq_gaps : ℕ
    pub loss_pct : Float
    pub reconnects : ℕ
    pub tcp_connected : Bool
    pub last_seen : Option Time
    pub last_seq : Option ℕ
    pub updated_at : Time

  pub record Alert : Type 0 where
    pub id : ℕ
    pub device_id : Text
    pub rule : Text
    pub metric : Option Text
    pub value : Option Float
    pub severity : Text
    pub status : AlertStatus
    pub message : Text
    pub opened_at : Time
    pub acked_at : Option Time
    pub resolved_at : Option Time
    pub updated_at : Time

  pub record DeviceConfig : Type 0 where
    pub device_id : Text
    pub version : ℕ
    pub telemetry_hz : ℕ
    pub log_level : ℕ
    pub rpm_limit : Float
    pub temp_limit_c : Float
    pub current_limit_a : Float
    pub created_at : Time
    pub ack_status : Text
    pub acked_at : Option Time

  pub record Sample : Type 0 where
    pub device_id : Text
    pub ts : Time
    pub seq : ℕ
    pub rpm : Float
    pub temp_c : Float
    pub current_a : Float
    pub voltage_v : Float
    pub vibration_g : Float
    pub speed_kph : Float
    pub lat : Float
    pub lon : Float
    pub fault_flags : ℕ
    pub state : ℕ

  -- A column's average, least and greatest value in a bucket.
  pub record Agg : Type 0 where
    pub avg : Float
    pub least : Float
    pub greatest : Float

  -- The metric columns of a bucket, after METRICS.
  pub record Bucket : Type 0 where
    pub device_id : Text
    pub ts : Time
    pub n : ℕ
    pub rpm : Agg
    pub temp_c : Agg
    pub current_a : Agg
    pub voltage_v : Agg
    pub vibration_g : Agg
    pub speed_kph : Agg
    pub lat : Float
    pub lon : Float
    pub fault_flags : ℕ
    pub state : ℕ

  -- A probable cause, and a diagnosis as heuristic_diagnosis returns it.
  pub record Cause : Type 0 where
    pub cause : Text
    pub evidence : Text
    pub likelihood : Float

  pub record Diagnosis : Type 0 where
    pub summary : Text
    pub probable_causes : List Cause
    pub recommended_actions : List Text
    pub confidence : Float
    pub generated_at : Option Text

  pub record DiagnosisRow : Type 0 where
    pub id : ℕ
    pub device_id : Text
    pub created_at : Time
    pub model : Text
    pub result : Diagnosis

  -- The next_ fields are AUTOINCREMENT's counters; tel_buf is _tel_buf.
  pub record Database : Type 0 where
    pub devices : List Device
    pub tel_buf : List Sample
    pub telemetry : List Sample
    pub rollups : List Bucket
    pub rollup_upto : Option Time
    pub logs : List LogRow
    pub next_log : ℕ
    pub alerts : List Alert
    pub next_alert : ℕ
    pub configs : List DeviceConfig
    pub firmware : List Firmware
    pub fw_jobs : List FwJob
    pub next_job : ℕ
    pub faults : List FaultInjection
    pub next_fault : ℕ
    pub stats : List StatsRow
    pub diagnoses : List DiagnosisRow
    pub next_diagnosis : ℕ
