-- ===== src/World/Types.antt =====
-- The rules, the per-device state of the engine, and the events.
use ecu_telemetry.Prelude.{ℕ, Bool, Option, List}
use ecu_telemetry.Prelude.Tables.{Dict}
use ecu_telemetry.Python.Floats.{Floats}
use ecu_telemetry.Python.Text.{Text}
use ecu_telemetry.Bus.{Time, EventBus}
use ecu_telemetry.Db.Types.{Alert, FwJob, LogRow, Database}

-- The `op` of a threshold; any other text is read as "<=".
pub data Op : Type 0 where
  gt lt ge le : Op

module _ ⦃fl : Floats⦄ where
  open fl use {Float}

  -- A threshold's value: a number, or a text such as "temp_limit_c+15".
  pub data ValueSpec : Type 0 where
    number : Float → ValueSpec
    expression : Text → ValueSpec

  pub record Override : Type 0 where
    pub device_id : Option Text
    pub hw_model : Option Text
    pub value : Option ValueSpec
    pub severity : Option Text

  pub record Threshold : Type 0 where
    pub name : Text
    pub metric : Text
    pub op : Op
    pub value : ValueSpec
    pub severity : Text
    pub overrides : List Override

  pub record RateRule : Type 0 where
    pub metric : Text
    pub max_per_s : Float
    pub window : Time
    pub severity : Text

  pub record Gate : Type 0 where
    pub metric : Text
    pub frac : Float
    pub abs : Float
    pub applies_to : List Text

  pub record AnomalyRule : Type 0 where
    pub enabled : Bool
    pub z : Float
    pub sustain : ℕ
    pub sustain_time : Time
    pub alpha : Float
    pub warmup : ℕ
    pub min_std : Float
    pub metrics : List Text
    pub gate : Option Gate
    pub severity : Text

  -- The merged rules, with every key of DEFAULT_RULES present.
  pub record Rules : Type 0 where
    pub resolve_after : Time
    pub thresholds : List Threshold
    pub comm_loss_pct : Option Float
    pub comm_severity : Text
    pub offline_enabled : Bool
    pub offline_severity : Text
    pub flags_enabled : Bool
    pub flags_severity : Dict Text
    pub rate : List RateRule
    pub anomaly : AnomalyRule

  pub record Ewma : Type 0 where
    pub mean : Float
    pub var : Float
    pub n : ℕ
    pub streak : ℕ
    pub since : Option Time

  pub record DeviceState : Type 0 where
    pub rate_hist : Dict (List (Time × Float))
    pub ewma : Dict Ewma
    pub active : Dict Time

  -- config_for's dict: the keys of DEFAULT_CONFIG.
  pub record Limits : Type 0 where
    pub telemetry_hz : ℕ
    pub log_level : ℕ
    pub rpm_limit : Float
    pub temp_limit_c : Float
    pub current_limit_a : Float

  pub record Engine : Type 0 where
    pub rules : Rules
    pub devices : Dict DeviceState
    pub config_cache : Dict Limits
    pub hw_cache : Dict Text

  -- The sample that the rules judge: the numbers of the telemetry dict, and its flags.
  pub record Reading : Type 0 where
    pub metrics : Dict Float
    pub fault_flags : ℕ

  pub data Event : Type 0 where
    alert : Text → Alert → Event
    presence : Text → Bool → Event
    tcp : Text → Bool → Event
    hello : Text → Text → Text → ℕ → Event
    config_set : Text → ℕ → Bool → Event
    config_ack : Text → ℕ → Text → Event
    fw_job : Text → Option FwJob → Event
    fault_ack : Text → ℕ → Event
    log : LogRow → Text → Event
    telemetry : Text → Reading → List Text → Event

  pub record World : Type 0 where
    pub db : Database
    pub engine : Engine
    pub bus : EventBus Event
