-- ===== src/Api/Views.antt =====
-- The views of devices: _device_view, devices, health and stats of backend/app/api.py. Dates in text
-- form, names of states and the nested rows of device_detail are left out.
use ecu_telemetry.Prelude.{
  ℕ, ◌+◌, Bool, Option, none, some, List, [], ◌∷◌, ◌==◌, if◌then◌else◌, length,
}
use ecu_telemetry.Prelude.Tables.{select, lookup}
use ecu_telemetry.Python.Floats.{Floats}
use ecu_telemetry.Python.Text.{Text, ◌===◌}
use ecu_telemetry.Bus.{Time}
use ecu_telemetry.Protocol.Flags.{flags_to_names}
use ecu_telemetry.Db.Types.{Device, Sample, Database}
use ecu_telemetry.Db.Alerts.{is_open}
use ecu_telemetry.Db.Config.{current_config}
use ecu_telemetry.Db.Telemetry.Queries.{latest_telemetry}
use ecu_telemetry.World.Types.{Reading}
use ecu_telemetry.Ingest.Stats.{DeviceStats, loss_pct}
use ecu_telemetry.Ingest.State.{Ingest, st, set_st}
use ecu_telemetry.Ingest.Totals.{FleetStats, fleet_stats}

module _ ⦃fl : Floats⦄ where
  open fl use {Float}

  -- open_alert_counts, for one device.
  unfoldable pub open_alerts_of : Text → Database → ℕ
  open_alerts_of k db =
      length (select (λ a. a.device_id === k) (select (λ a. is_open a.status) db.alerts))

  pub record DeviceView : Type 0 where
    pub device_id : Text
    pub state : ℕ
    pub online : Bool
    pub tcp_connected : Bool
    pub last_seen : Option Time
    pub fw_version : Option Text
    pub hw_model : Option Text
    pub config_version : ℕ
    pub reported_config_version : ℕ
    pub telemetry_hz : Option ℕ
    pub uptime_s : Option ℕ
    pub loss_pct : Float
    pub frames_rx : ℕ
    pub bad_crc : ℕ
    pub reconnects : ℕ
    pub faults : List Text
    pub open_alerts : ℕ

  -- `s.last_seen or d.get("last_seen")`
  abbrev seen_or : Option Time → Option Time → Option Time
  seen_or none t = t
  seen_or (some s) t = if s == 0 then t else some s

  -- `latest.get(dev) or latest_telemetry(dev)`, its flags.
  flags_of : Option Reading → Option Sample → ℕ
  flags_of none none = 0
  flags_of none (some x) = x.fault_flags
  flags_of (some r) o = r.fault_flags

  -- `dev in st.ingest.stats` comes after st(), which has put the device in: the statistics decide.
  unfoldable pub device_view : Device → Ingest → Ingest × DeviceView
  unfolding flags_of open_alerts_of st set_st
  device_view d i =
      let s = st d.device_id i in
      let i' = set_st d.device_id s i in
      let db = i.world.db in
      (
        i',
        record {
          device_id = d.device_id;
          state = d.state;
          online = s.online;
          tcp_connected = s.tcp_connected;
          last_seen = seen_or s.last_seen d.last_seen;
          fw_version = d.fw_version;
          hw_model = d.hw_model;
          config_version = elim (current_config db d.device_id) [
            | none ↦ d.reported_config_version
            | some c ↦ c.version
          ];
          reported_config_version = d.reported_config_version;
          telemetry_hz = d.telemetry_hz;
          uptime_s = d.uptime_s;
          loss_pct = loss_pct s;
          frames_rx = s.frames_rx;
          bad_crc = s.bad_crc;
          reconnects = s.reconnects;
          faults =
              flags_to_names
                (flags_of (lookup d.device_id i.latest) (latest_telemetry d.device_id db));
          open_alerts = open_alerts_of d.device_id db;
        },
      )

  unfoldable pub views_of : List Device → Ingest → Ingest × List DeviceView
  unfolding device_view
  views_of [] i = (i, [])
  views_of (d ∷ ds) i =
      let (i1, v) = device_view d i in let (i2, vs) = views_of ds i1 in (i2, v ∷ vs)

  -- list_devices, in the order of their ids, is views_of's argument up to that order.
  unfoldable pub devices : Ingest → Ingest × List DeviceView
  unfolding views_of
  devices i = views_of i.world.db.devices i

  count_online : List (Text × DeviceStats) → ℕ
  count_online [] = 0
  count_online ((d, s) ∷ rest) = (if s.online then 1 else 0) + count_online rest

  -- The number that health answers with, beside its clock and ports.
  unfoldable pub health : Ingest → ℕ
  unfolding count_online
  health i = count_online i.stats

  pub record ServerStats : Type 0 where
    pub fleet : FleetStats
    pub alerts_open : ℕ
    pub sse_clients : ℕ

  unfoldable pub server_stats : Ingest → ServerStats
  server_stats i = record {
    fleet = fleet_stats i;
    alerts_open = length (select (λ a. is_open a.status) i.world.db.alerts);
    sse_clients = length i.world.bus.subs;
  }
