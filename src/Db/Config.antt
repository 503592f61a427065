-- ===== src/Db/Config.antt =====
-- The device_config table: current_config, new_config and ack_config of backend/app/db.py.
pub mod Versions
use Prim.Native.Nat.{max}
use ecu_telemetry.Prelude.{
  ℕ, zero, suc, ◌+◌, ◌≤◌, Bool, true, false, ◌&&◌, Option, none, some, List, [], ◌∷◌, leb, ltb,
  ◌==◌, if◌then◌else◌,
}
use ecu_telemetry.Prelude.Tables.{select, find, update}
use ecu_telemetry.Python.Floats.{Floats}
use ecu_telemetry.Python.Text.{Text, text, ◌===◌}
use ecu_telemetry.Bus.{Time}
use ecu_telemetry.Db.Types.{Device, DeviceConfig, Database}
use ecu_telemetry.Db.Devices.{get_device}

module _ ⦃fl : Floats⦄ where
  open fl use {Float}

  abbrev pub pick : DeviceConfig → Option DeviceConfig → DeviceConfig
  pick c none = c
  pick c (some best) = if ltb c.version best.version then best else c

  -- ORDER BY version DESC LIMIT 1
  unfoldable pub latest : Text → List DeviceConfig → Option DeviceConfig
  latest k [] = none
  latest k (c ∷ cs) =
      let rest = latest k cs in if c.device_id === k then some (pick c rest) else rest

  unfoldable pub current_config : Database → Text → Option DeviceConfig
  current_config db k = latest k db.configs

  -- `cur["version"] if cur else 0`
  abbrev pub config_version : Option DeviceConfig → ℕ
  config_version none = 0
  config_version (some c) = c.version

  -- `(dev or {}).get("reported_config_version") or 0`
  abbrev pub reported_version : Option Device → ℕ
  reported_version none = 0
  reported_version (some d) = d.reported_config_version

  abbrev pub config_row : Text → ℕ → ℕ → ℕ → Float → Float → Float → Time → DeviceConfig
  config_row k version hz level rpm temp current now = record {
    device_id = k;
    version = version;
    telemetry_hz = hz;
    log_level = level;
    rpm_limit = rpm;
    temp_limit_c = temp;
    current_limit_a = current;
    created_at = now;
    ack_status = text "pending";
    acked_at = none;
  }

  unfoldable pub new_config :
      Text → ℕ → ℕ → Float → Float → Float → Time → Database → Database × Option DeviceConfig
  new_config k hz level rpm temp current now db =
      let base = max (config_version (current_config db k)) (reported_version (get_device db k)) in
      let row = config_row k (base + 1) hz level rpm temp current now in
      let db' : Database = record db { configs = row ∷ db.configs } in (db', current_config db' k)

  abbrev pub is_version : Text → ℕ → DeviceConfig → Bool
  is_version k v c = (c.device_id === k) && (c.version == v)

  unfoldable pub ack_config : Text → ℕ → Text → Time → Database → Database
  ack_config k version status now db = record db {
    configs =
        update (is_version k version) (λ c. record c { ack_status = status; acked_at = some now })
          db.configs;
  }

  -- The UPDATE of push_config, which leaves acked_at alone.
  unfoldable pub mark_config : Text → ℕ → Text → Database → Database
  mark_config k version status db = record db {
    configs = update (is_version k version) (λ c. record c { ack_status = status }) db.configs;
  }
