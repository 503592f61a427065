-- ===== src/Db/Devices.antt =====
-- The devices, logs, fault_injections and device_stats tables of backend/app/db.py.
use ecu_telemetry.Prelude.{
  ℕ, ◌+◌, ◌≡◌, Bool, false, Option, none, some, List, [], ◌∷◌, arith, ◌==◌, if◌then◌else◌, take,
}
use ecu_telemetry.Prelude.Tables.{select, find, update}
use ecu_telemetry.Python.Floats.{Floats}
use ecu_telemetry.Python.Text.{Text, ◌===◌, ===_refl, ===_iff}
use ecu_telemetry.Bus.{Time}
use ecu_telemetry.Db.Types.{Device, LogRow, FaultInjection, StatsRow, Database}

module _ ⦃fl : Floats⦄ where
  -- The row that INSERT makes of the columns' defaults.
  abbrev pub new_device : Text → Time → Device
  new_device device_id now = record {
    device_id = device_id;
    hw_model = none;
    fw_version = none;
    fw_version_u32 = none;
    state = 0;
    online = false;
    first_seen = now;
    last_seen = none;
    last_hello = none;
    last_heartbeat = none;
    telemetry_hz = none;
    uptime_s = none;
    device_reconnects = 0;
    reported_config_version = 0;
    lat = none;
    lon = none;
  }

  abbrev pub is_device : Text → Device → Bool
  is_device k d = d.device_id === k

  -- `fields.setdefault("last_seen", now)`, then the named columns.
  abbrev pub set_fields : (Device → Device) → Time → Device → Device
  set_fields fields now d = fields (record d { last_seen = some now })

  upsert_row : Text → (Device → Device) → Time → List Device → List Device
  upsert_row k fields now [] = set_fields fields now (new_device k now) ∷ []
  upsert_row k fields now (d ∷ ds) =
      let rest = upsert_row k fields now ds in
      if is_device k d then set_fields fields now d ∷ ds else d ∷ rest

  unfoldable pub upsert_device : Text → (Device → Device) → Time → Database → Database
  unfolding upsert_row
  upsert_device k fields now db = record db { devices = upsert_row k fields now db.devices }

  unfoldable pub get_device : Database → Text → Option Device
  get_device db k = find (is_device k) db.devices

  unfoldable pub set_online : Text → Bool → Database → Database
  set_online k online db = record db {
    devices = update (is_device k) (λ d. record d { online = online }) db.devices;
  }

  -- The row comes back beside the database.
  unfoldable pub add_log : Text → ℕ → Text → Option ℕ → Time → Database → Database × LogRow
  add_log k level message device_ts_ms now db =
      let row : LogRow = record {
        id = db.next_log;
        device_id = k;
        ts = now;
        device_ts_ms = device_ts_ms;
        level = level;
        message = message;
      } in
      (record db { logs = row ∷ db.logs; next_log = db.next_log + 1 }, row)

  unfoldable pub logs : Text → ℕ → Database → List LogRow
  logs k limit db = take limit (select (λ r. r.device_id === k) db.logs)

  unfoldable pub fault_injection_add : Text → ℕ → ℕ → ℕ → Time → Database → Database × ℕ
  fault_injection_add k set clear duration now db =
      let row : FaultInjection = record {
        id = db.next_fault;
        device_id = k;
        set_flags = set;
        clear_flags = clear;
        duration_ms = duration;
        created_at = now;
        ack_flags = none;
        acked_at = none;
      } in
      (record db { faults = row ∷ db.faults; next_fault = db.next_fault + 1 }, db.next_fault)

  unfoldable pub fault_injections : Text → ℕ → Database → List FaultInjection
  fault_injections k limit db = take limit (select (λ f. f.device_id === k) db.faults)

  abbrev ack_latest : Option FaultInjection → ℕ → Time → List FaultInjection → List FaultInjection
  ack_latest none flags now fs = fs
  ack_latest (some latest) flags now fs =
      update (λ f. f.id == latest.id)
        (λ f. record f { ack_flags = some flags; acked_at = some now }) fs

  unfoldable pub fault_injection_ack : Text → ℕ → Time → Database → Database
  fault_injection_ack k flags now db = record db {
    faults = ack_latest (find (λ f. f.device_id === k) db.faults) flags now db.faults;
  }

  abbrev pub row_or_new : Text → Time → Option Device → Device
  row_or_new k now none = new_device k now
  row_or_new k now (some d) = d

  upsert_row-find :
      (k j : Text) (fields : Device → Device) (now : Time) (ds : List Device)
      → ((d : Device) → (fields d).device_id ≡ d.device_id)
      → find (is_device j) (upsert_row k fields now ds) ≡ (
          if k === j
          then some (set_fields fields now (row_or_new k now (find (is_device k) ds)))
          else find (is_device j) ds)
  unfolding upsert_row
  upsert_row-find k j fields now [] h =
      ground (arith, ===_refl k, h (record (new_device k now) { last_seen = some now }))
  upsert_row-find k j fields now (d ∷ ds) h = ground (
    arith,
    ===_iff k j,
    ===_iff d.device_id k,
    ===_iff d.device_id j,
    upsert_row-find k j fields now ds h,
    h (record d { last_seen = some now }),
  )

  -- An upsert whose columns leave the device's id writes that device's row, which it makes if there
  -- is none, and no other row.
  pub get_device-upsert_device :
      (k j : Text) (fields : Device → Device) (now : Time) (db : Database)
      → ((d : Device) → (fields d).device_id ≡ d.device_id)
      → get_device (upsert_device k fields now db) j ≡ (
          if k === j
          then some (set_fields fields now (row_or_new k now (get_device db k)))
          else get_device db j)
  unfolding get_device upsert_device
  get_device-upsert_device k j fields now db h = upsert_row-find k j fields now db.devices h

  save_row : StatsRow → List StatsRow → List StatsRow
  save_row row [] = row ∷ []
  save_row row (r ∷ rs) =
      let rest = save_row row rs in if r.device_id === row.device_id then row ∷ rs else r ∷ rest

  -- INSERT … ON CONFLICT(device_id) DO UPDATE, on every column.
  unfoldable pub save_stats : StatsRow → Database → Database
  unfolding save_row
  save_stats row db = record db { stats = save_row row db.stats }
