-- ===== src/Api/Config.antt =====
-- The configuration of a device: ConfigBody, _log_level, _config_view, get_config and put_config of
-- backend/app/api.py.
use ecu_telemetry.Prelude.{
  ℕ, ◌+◌, ◌⊎◌, inl, inr, Bool, ◌&&◌, Option, none, some, [], ◌∷◌, ◌++◌, leb, if◌then◌else◌,
}
use ecu_telemetry.Python.Result.{ok, err}
use ecu_telemetry.Python.Floats.{Floats}
use ecu_telemetry.Python.Text.{Text, text, ◌===◌}
use ecu_telemetry.Python.Decimal.{str_int}
use ecu_telemetry.Bus.{Time}
use ecu_telemetry.Db.Types.{Device, DeviceConfig}
use ecu_telemetry.Db.Devices.{get_device}
use ecu_telemetry.Db.Config.{new_config, config_version, reported_version, current_config}
use ecu_telemetry.World.Types.{Event}
use ecu_telemetry.Ingest.State.{Ingest, Net, with_db, announce}
use ecu_telemetry.Ingest.Push.{Did, push_config}
use ecu_telemetry.Ingest.Dispatch.{log_line}
use ecu_telemetry.Api.{Answer, answered, refused, raised, Reply, pushed_text}

unfoldable pub lower : Text → Text
lower [] = []
lower (c ∷ s) = (if leb 65 c && leb c 90 then c + 32 else c) ∷ lower s

-- _log_level, of a number or a text; none is status 422.
unfoldable pub log_level_of : ℕ ⊎ Text → Option ℕ
unfolding lower
log_level_of (inl v) = if leb v 3 then some v else none
log_level_of (inr s) =
    let key = lower s in
    if key === text "debug"
    then some 0
    else if key === text "info"
    then some 1
    else if key === text "warn"
    then some 2
    else if key === text "error"
    then some 3
    else none

module _ ⦃fl : Floats⦄ where
  open fl use {Float}

  pub record ConfigBody : Type 0 where
    pub telemetry_hz : ℕ
    pub log_level : ℕ ⊎ Text
    pub rpm_limit : Float
    pub temp_limit_c : Float
    pub current_limit_a : Float

  -- The bounds of the body's fields; outside them the framework answers 422.
  unfoldable pub in_bounds : ConfigBody → Bool
  in_bounds b =
      (leb 1 b.telemetry_hz && leb b.telemetry_hz 100)
      && (fl.le (fl.of_ℕ 0) b.rpm_limit
          && ((fl.le (fl.sub (fl.of_ℕ 0) (fl.of_ℕ 40)) b.temp_limit_c
                && fl.le b.temp_limit_c (fl.of_ℕ 300))
              && fl.le (fl.of_ℕ 0) b.current_limit_a))

  -- What _config_view shows: the row, or none for a device that runs its defaults, the version, and
  -- the version that the device has reported.
  pub record ConfigView : Type 0 where
    pub row : Option DeviceConfig
    pub version : ℕ
    pub reported : ℕ

  unfoldable pub config_view : Ingest → Text → Option DeviceConfig → ConfigView
  config_view i device_id none =
      let reported = reported_version (get_device i.world.db device_id) in
      record { row = none; version = reported; reported = reported }
  config_view i device_id (some cfg) = record {
    row = some cfg;
    version = cfg.version;
    reported = reported_version (get_device i.world.db device_id);
  }

  unfoldable pub get_config : Text → Ingest → Answer ConfigView
  get_config device_id i = elim (get_device i.world.db device_id) [
    | none ↦ refused 404
    | some d ↦ answered (config_view i device_id (current_config i.world.db device_id))
  ]

  -- After the push: the log line, the view and the event.
  unfoldable pub config_pushed : Did Bool → Text → Time → Reply (ConfigView × Bool)
  unfolding log_line announce config_view
  config_pushed (i, err e) device_id now = (i, raised e)
  config_pushed (i, ok pushed) device_id now =
      let cfg = current_config i.world.db device_id in
      let message =
        text "CONFIG_SET v"
        ++ (str_int (config_version cfg)
            ++ (text " " ++ pushed_text pushed (text "queued (device not connected)"))) in
      let i' = log_line device_id 1 message none now i in
      (
        announce (Event.config_set device_id (config_version cfg) pushed) i',
        answered (config_view i' device_id cfg, pushed),
      )

  unfoldable pub config_made :
      Net → Option DeviceConfig → Text → Time → Ingest → Reply (ConfigView × Bool)
  unfolding config_pushed push_config
  config_made net none device_id now i = (i, refused 500)
  config_made net (some cfg) device_id now i =
      config_pushed (push_config net device_id cfg now i) device_id now

  unfoldable pub config_level :
      Net → Option ℕ → Text → ConfigBody → Time → Ingest → Reply (ConfigView × Bool)
  unfolding config_made with_db
  config_level net none device_id b now i = (i, refused 422)
  config_level net (some level) device_id b now i =
      let made =
        new_config device_id b.telemetry_hz level b.rpm_limit b.temp_limit_c b.current_limit_a now
          i.world.db in
      config_made net made.1 device_id now (with_db (λ db. made.0) i)

  unfoldable pub config_known :
      Net → Option Device → Text → ConfigBody → Time → Ingest → Reply (ConfigView × Bool)
  unfolding config_level log_level_of
  config_known net none device_id b now i = (i, refused 404)
  config_known net (some d) device_id b now i =
      config_level net (log_level_of b.log_level) device_id b now i

  unfoldable pub put_config : Net → Text → ConfigBody → Time → Ingest → Reply (ConfigView × Bool)
  unfolding config_known in_bounds
  put_config net device_id b now i =
      if in_bounds b
      then config_known net (get_device i.world.db device_id) device_id b now i
      else (i, refused 422)
