-- ===== src/Examples/Stores.antt =====
-- Examples of the rollup, the queries and the loop that finds silent devices.
use ecu_telemetry.Prelude.{◌+◌, ◌*◌, ◌≤◌, ◌≡◌, refl, true, false, some, [], ◌∷◌, All, length, arith}
use ecu_telemetry.Prelude.Tables.{lookup}
use ecu_telemetry.Prelude.Sorting.{IsAscending}
use ecu_telemetry.Python.Text.{◌===◌}
use ecu_telemetry.Bus.{second}
use ecu_telemetry.Db.Types.{Sample, Database, Device}
use ecu_telemetry.Db.Devices.{new_device, get_device}
use ecu_telemetry.Db.Telemetry.{due, rollup}
use ecu_telemetry.Db.Telemetry.Rollup.{total, IsRolled, rollup-total}
use ecu_telemetry.Db.Telemetry.Queries.{in_window, raw_rows, raw_rows-in_window}
use ecu_telemetry.Ingest.Stats.{DeviceStats, new_stats}
use ecu_telemetry.Ingest.State.{Ingest}
use ecu_telemetry.Ingest.Dispatch.{offline_scan}
use ecu_telemetry.Ingest.Dispatch.Offline.{IsReported, is_online, offline_scan-reports}
use ecu_telemetry.Ingest.Dispatch.Offline.Rows.{offline_scan-row}
use ecu_telemetry.Examples.{two, device, empty, server, world}

abbrev sample : Sample
sample = record {
  device_id = device;
  ts = 65 * second;
  seq = 1;
  rpm = true;
  temp_c = true;
  current_a = false;
  voltage_v = true;
  vibration_g = false;
  speed_kph = true;
  lat = true;
  lon = true;
  fault_flags = 0;
  state = 2;
}

-- One sample, stored and not rolled up.
abbrev stored : Database
stored = record empty { telemetry = sample ∷ [] }

stored-IsRolled : IsRolled stored
stored-IsRolled = record { minutes = 0; aligned = refl; before = tt }

rollup-total_example :
    (total (rollup (130 * second) stored).0.rollups
      ≡ total stored.rollups + length (due (130 * second) stored))
    × IsRolled (rollup (130 * second) stored).0
rollup-total_example = rollup-total (130 * second) stored stored-IsRolled

raw_rows-in_window_example :
    All (λ x. in_window device 0 (70 * second) x ≡ true) (raw_rows device 0 (70 * second) 5 stored)
    × IsAscending (λ x. x.ts) (raw_rows device 0 (70 * second) 5 stored)
    × (length (raw_rows device 0 (70 * second) 5 stored) ≤ 20_000)
raw_rows-in_window_example = raw_rows-in_window device 0 (70 * second) 5 stored

-- Online, and heard of a second after the clock's start.
abbrev heard : DeviceStats
heard = record new_stats { online = true; last_seen = some second }

abbrev listening : Ingest
listening = record server { stats = (device, heard) ∷ [] }

offline_scan-reports_example : IsReported device (offline_scan (17 * second) listening)
unfolding lookup ◌===◌
offline_scan-reports_example =
    offline_scan-reports device heard second (17 * second) listening refl refl refl (omega arith)
      (omega arith) refl

-- A silent device that the devices table has online.
abbrev silent : Device
silent = record (new_device device 1) { online = true; last_seen = some 1 }

-- The statistics have the device offline.
abbrev restarted : Ingest
restarted = record server {
  stats = (device, new_stats) ∷ [];
  world = record world { db = record empty { devices = silent ∷ [] } };
}

offline_scan-row_example : is_online (offline_scan (17 * second) restarted).world.db device ≡ true
unfolding get_device lookup ◌===◌
offline_scan-row_example =
    offline_scan-row device silent 1 (17 * second) restarted refl refl refl (omega arith)
      (omega arith) (refl, tt)
