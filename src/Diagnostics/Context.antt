-- ===== src/Diagnostics/Context.antt =====
-- Diagnostician.build_context and diagnose of backend/app/diagnostics.py.
use ecu_telemetry.Prelude.{◌*◌, Bool, true, false, Option, none, some, List, [], map, take}
use ecu_telemetry.Prelude.Tables.{select, lookup}
use ecu_telemetry.Python.Floats.{Floats}
use ecu_telemetry.Python.Text.{Text}
use ecu_telemetry.Bus.{Time, second}
use ecu_telemetry.Protocol.Flags.{flags_to_names}
use ecu_telemetry.Db.Types.{
  AlertStatus, resolved, Device, DeviceConfig, FwJob, Alert, LogRow, FaultInjection, Sample,
}
use ecu_telemetry.Db.Devices.{get_device, logs, fault_injections}
use ecu_telemetry.Db.Config.{current_config}
use ecu_telemetry.Db.Firmware.{fw_job_latest}
use ecu_telemetry.Db.Alerts.{StatusFilter, alerts}
use ecu_telemetry.Db.Telemetry.Queries.{MetricStats, metric_stats, latest_telemetry}
use ecu_telemetry.World.Types.{Reading}
use ecu_telemetry.Ingest.Stats.{DeviceStats}
use ecu_telemetry.Ingest.State.{Ingest, st, set_st}

module _ ⦃fl : Floats⦄ where
  -- The keys of the context that the diagnosis reads, each with the row that it is made of;
  -- `latest` is its flags.
  pub record Context : Type 0 where
    pub device_id : Text
    pub device : Option Device
    pub config : Option DeviceConfig
    pub fw_job : Option FwJob
    pub active_faults : List Text
    pub stats : MetricStats
    pub comm : DeviceStats
    pub open_alerts : List Alert
    pub recently_resolved : List Alert
    pub logs : List LogRow
    pub injections : List FaultInjection

  -- `latest.get(device_id) or latest_telemetry(device_id)`, its flags' names.
  faults_of : Option Reading → Option Sample → List Text
  faults_of none none = []
  faults_of none (some x) = flags_to_names x.fault_flags
  faults_of (some r) o = flags_to_names r.fault_flags

  abbrev is_resolved : AlertStatus → Bool
  is_resolved resolved = true
  is_resolved _ = false

  -- `l["message"][:200]`
  abbrev cut_message : LogRow → LogRow
  cut_message l = record l { message = take 200 l.message }

  -- The device's statistics are made if there are none, as st does.
  unfoldable pub build_context : Text → Time → Ingest → Ingest × Context
  unfolding st set_st faults_of
  build_context device_id now i =
      let s = st device_id i in
      let db = i.world.db in
      (
        set_st device_id s i,
        record {
          device_id = device_id;
          device = get_device db device_id;
          config = current_config db device_id;
          fw_job = fw_job_latest db device_id;
          active_faults = faults_of (lookup device_id i.latest) (latest_telemetry device_id db);
          stats = metric_stats device_id (300 * second) now db;
          comm = s;
          open_alerts = alerts (some device_id) StatusFilter.only_open 50 db;
          recently_resolved = take 15 (
              select (λ a. is_resolved a.status)
                (alerts (some device_id) StatusFilter.all_alerts 30 db));
          logs = map cut_message (logs device_id 30 db);
          injections = fault_injections device_id 10 db;
        },
      )
