-- ===== src/Examples/Judged.antt =====
-- Examples of the rule engine and of the stores that it reads.
use ecu_telemetry.Prelude.{
  ◌+◌, ◌*◌, ◌≡◌, refl, ◌⊎◌, inl, true, false, ◌&&◌, none, some, List, [], ◌∷◌, leb, length, arith,
}
use ecu_telemetry.Python.Text.{text, ◌===◌}
use ecu_telemetry.Bus.{second}
use ecu_telemetry.Db.Types.{Alert, Sample}
use ecu_telemetry.Db.Alerts.{open_alert}
use ecu_telemetry.Db.Config.{new_config, current_config, config_row}
use ecu_telemetry.Db.Config.Versions.{next_version, new_config-current}
use ecu_telemetry.World.Types.{Reading}
use ecu_telemetry.Engine.Alerts.{Mark, mark, resolve, tick}
use ecu_telemetry.Engine.Alerts.Lifecycle.{mark-opens, resolve-clears}
use ecu_telemetry.Engine.Alerts.Lifecycle.Tick.{tick-resolves}
use ecu_telemetry.Engine.Ewma.{
  Judged, state_after, hot_run, oldest, is_sustained, since_or, is_sustained-hot_run,
}
use ecu_telemetry.Engine.Evaluate.{on_telemetry}
use ecu_telemetry.Engine.Evaluate.Fired.{AllOpen, on_telemetry-AllOpen}
use ecu_telemetry.Examples.{two, device, empty, anomaly, hot, world, world-IsUnique}

tick-resolves_example : open_alert (tick (20 * second) world).db device (text "temp_high") ≡ none
unfolding ◌===◌
tick-resolves_example =
    tick-resolves device (text "temp_high") hot 5 (20 * second) world world-IsUnique
      (inl (refl, refl)) (inl (refl, refl)) refl (omega arith)

abbrev warm : Reading
warm = record { metrics = (text "temp_c", true) ∷ []; fault_flags = 1 }

on_telemetry-AllOpen_example :
    AllOpen device
      (on_telemetry device warm 7 (some true) world).0.db
      (on_telemetry device warm 7 (some true) world).1
on_telemetry-AllOpen_example = on_telemetry-AllOpen device warm 7 (some true) world

abbrev lost : Mark
lost = record {
  rule = text "packet_loss";
  metric = some (text "loss_pct");
  value = some true;
  severity = text "warn";
  message = text "lossy";
}

mark-opens_example :
    (a : Alert) × (open_alert (mark device lost true 7 world).db device (text "packet_loss")
      ≡ some a)
    × ((open_alert empty device (text "packet_loss") ≡ some a)
        ⊎ (open_alert empty device (text "packet_loss") ≡ none)
          × (a.opened_at ≡ 7)
          × (a.severity ≡ text "warn")
          × (a.value ≡ some true))
mark-opens_example = mark-opens device lost 7 world

resolve-clears_example :
    open_alert (resolve device (text "temp_high") 9 world).db device (text "temp_high") ≡ none
resolve-clears_example = resolve-clears device (text "temp_high") 9 world world-IsUnique

abbrev judged : List Judged
judged =
    record { held = false; value = true; at = 9 }
    ∷ record { held = false; value = false; at = 8 }
    ∷ []

is_sustained-hot_run_example : is_sustained anomaly 9 (state_after anomaly judged) ≡ (
    leb 3 (length (hot_run anomaly judged))
    && leb (since_or (oldest (hot_run anomaly judged)) 9 + 3 * second) 9)
is_sustained-hot_run_example = is_sustained-hot_run anomaly 9 judged

new_config-current_example :
    ((new_config device 10 1 true true true 4 empty).1
      ≡ some (config_row device (next_version device empty) 10 1 true true true 4))
    × (current_config (new_config device 10 1 true true true 4 empty).0 device
        ≡ some (config_row device (next_version device empty) 10 1 true true true 4))
new_config-current_example = new_config-current device 10 1 true true true 4 empty

abbrev sample : Sample
sample = record {
  device_id = device;
  ts = 5;
  seq = 6;
  rpm = true;
  temp_c = true;
  current_a = true;
  voltage_v = true;
  vibration_g = false;
  speed_kph = true;
  lat = true;
  lon = true;
  fault_flags = 0;
  state = 1;
}
