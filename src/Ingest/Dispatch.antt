-- ===== src/Ingest/Dispatch.antt =====
-- The TCP control channel of backend/app/ingest.py: registration, dispatch, pushes and the loops.
pub mod Followup
pub mod Offline
pub mod Steps
use ecu_telemetry.Prelude.{
  ℕ, ◌+◌, ◌*◌, ◌/◌, Bool, true, false, not, ◌&&◌, ◌||◌, Option, none, some, List, [], ◌∷◌, ◌++◌,
  ltb, leb, ◌==◌, ◌≡◌, refl, if◌then◌else◌,
}
use ecu_telemetry.Prelude.Tables.{Dict, lookup, insert, remove}
use ecu_telemetry.Python.Result.{Result, ok, err, Error}
use ecu_telemetry.Python.Floats.{Floats}
use ecu_telemetry.Python.Struct.{Bytes}
use ecu_telemetry.Python.Text.{Text, text, ◌===◌}
use ecu_telemetry.Python.Decimal.{str_int}
use ecu_telemetry.Bus.{Time}
use ecu_telemetry.Protocol.Header.{Header}
use ecu_telemetry.Protocol.Payload.Types.{
  Payload, Hello, Heartbeat, Log, ConfigAck, ConfigSet, FwAck, FwUpdate, FaultAck, FaultInject, Cmd,
  name_of, log_levels, config_ack_status, fw_ack_status,
}
use ecu_telemetry.Protocol.Payload.Codec.{payload_type}
use ecu_telemetry.Protocol.Frame.{Frame, encode}
use ecu_telemetry.Db.Types.{Device, DeviceConfig, Firmware, FwJob, Database}
use ecu_telemetry.Db.Devices.{upsert_device, get_device, add_log, fault_injection_ack}
use ecu_telemetry.Db.Config.{current_config, ack_config, mark_config}
use ecu_telemetry.Db.Firmware.{in_progress, firmware_get, fw_job_get, fw_job_latest, fw_job_update}
use ecu_telemetry.World.Types.{Event, World}
use ecu_telemetry.Engine.Alerts.{tick}
use ecu_telemetry.Engine.Thresholds.{invalidate_config}
use ecu_telemetry.Ingest.Stats.{DeviceStats}
use ecu_telemetry.Ingest.State.{
  Ingest, Net, st, set_st, with_db, with_engine, announce, set_presence, seen, handle_telemetry,
  offline_after,
}
use ecu_telemetry.Ingest.Push.{
  Did, then_do, done, fw_of, write_frame, send_on, send, send-none, config_payload, push_config,
  fw_payload, push_fw, push_fault, push_cmd,
}

module _ ⦃fl : Floats⦄ where
  open fl use {Float}

  -- _register: the old connection's close is asyncio's.
  unfoldable pub register : Text → ℕ → Ingest → Ingest
  unfolding announce st set_st
  register device_id conn i =
      let s = st device_id i in
      let again : Bool = elim (lookup device_id i.writers) [ none ↦ false | some c ↦ true ] in
      let known : Bool = elim s.last_seen [ none ↦ false | some t ↦ not (t == 0) ] in
      let n = if ltb 0 s.frames_rx || (again || known) then s.reconnects + 1 else s.reconnects in
      let i1 = set_st device_id (record s { reconnects = n; tcp_connected = true }) i in
      announce (Event.tcp device_id true) (record i1 { writers = insert device_id conn i1.writers })

  hello_config : Net → Option DeviceConfig → Text → Hello → Time → Ingest → Did (Unit {0})
  unfolding push_config
  hello_config net none device_id p now i = done i
  hello_config net (some cfg) device_id p now i =
      if ltb p.config_version cfg.version
      then then_do (push_config net device_id cfg now i) (λ sent i'. done i')
      else done i

  hello_fw : Net → Option Firmware → Text → Time → Ingest → Did (Unit {0})
  unfolding send
  hello_fw net none device_id now i = done i
  hello_fw net (some fw) device_id now i =
      then_do (send net device_id (fw_payload fw) now i) (λ sent i'. done i')

  -- `job["status"] in ("pending", "accepted", "downloading")`
  unfoldable pub is_resendable : FwJob → Bool
  is_resendable j =
      (j.status === text "pending")
      || ((j.status === text "accepted") || (j.status === text "downloading"))

  job_complete : FwJob → Text → Time → Ingest → Did (Unit {0})
  unfolding with_db announce
  job_complete job device_id now i =
      let i' = with_db (fw_job_update job.id (text "complete") now) i in
      done (announce (Event.fw_job device_id (fw_job_get i'.world.db job.id)) i')

  hello_job : Net → Option FwJob → Text → Hello → Time → Ingest → Did (Unit {0})
  unfolding hello_fw job_complete is_resendable in_progress
  hello_job net none device_id p now i = done i
  hello_job net (some job) device_id p now i =
      if not (in_progress job)
      then done i
      else if p.fw_string === job.target_version
      then job_complete job device_id now i
      else if is_resendable job
      then hello_fw net (firmware_get i.world.db job.target_version) device_id now i
      else done i

  unfoldable pub after_hello : Net → Text → Hello → Time → Ingest → Did (Unit {0})
  unfolding hello_config hello_job
  after_hello net device_id p now i =
      then_do (hello_config net (current_config i.world.db device_id) device_id p now i)
        (λ x i'. hello_job net (fw_job_latest i'.world.db device_id) device_id p now i')

  -- add_log, without the row that it returns
  unfoldable pub log_line : Text → ℕ → Text → Option ℕ → Time → Ingest → Ingest
  unfolding with_db
  log_line device_id level message ts now i =
      with_db (λ db. (add_log device_id level message ts now db).0) i

  abbrev hello_columns : Hello → Header → Time → Device → Device
  hello_columns p h now d = record d {
    hw_model = some p.hw_model;
    fw_version = some p.fw_string;
    fw_version_u32 = some h.fw_version;
    telemetry_hz = some p.telemetry_hz;
    reported_config_version = p.config_version;
    last_hello = some now;
    last_seen = some now;
  }

  on_hello : Net → Header → Hello → Time → Ingest → Did (Unit {0})
  unfolding after_hello log_line announce seen with_db
  on_hello net h p now i =
      let i1 = with_db (upsert_device h.device_id (hello_columns p h now) now) i in
      let i2 =
        announce (Event.hello h.device_id p.fw_string p.hw_model p.config_version)
          (seen h.device_id now i1) in
      let message =
        text "HELLO fw="
        ++ (p.fw_string
            ++ (text " hw="
                ++ (p.hw_model
                    ++ (text " cfg=v"
                        ++ (str_int p.config_version
                            ++ (text " hz=" ++ str_int p.telemetry_hz)))))) in
      after_hello net h.device_id p now (log_line h.device_id 1 message none now i2)

  abbrev heartbeat_columns : Heartbeat → Time → Device → Device
  heartbeat_columns p now d = record d {
    uptime_s = some p.uptime_s;
    device_reconnects = p.reconnects;
    reported_config_version = p.config_version;
    last_heartbeat = some now;
    last_seen = some now;
  }

  on_heartbeat : Header → Heartbeat → Time → Ingest → Ingest
  unfolding seen with_db
  on_heartbeat h p now i =
      seen h.device_id now (with_db (upsert_device h.device_id (heartbeat_columns p now) now) i)

  on_log : Header → Log → Time → Ingest → Ingest
  unfolding seen announce log_line
  on_log h p now i =
      let row = (add_log h.device_id p.level p.message (some h.ts_ms) now i.world.db).1 in
      seen h.device_id now (
        announce (Event.log row (name_of log_levels p.level))
          (log_line h.device_id p.level p.message (some h.ts_ms) now i))

  on_config_ack : Header → ConfigAck → Time → Ingest → Ingest
  unfolding announce log_line with_db with_engine
  on_config_ack h p now i =
      let status = name_of config_ack_status p.status in
      let applied = status === text "applied" in
      let reported : Device → Device =
        λ d. record d { reported_config_version = p.config_version } in
      let i1 = with_db (ack_config h.device_id p.config_version status now) i in
      let i2 = if applied then with_db (upsert_device h.device_id reported now) i1 else i1 in
      let i3 =
        announce (Event.config_ack h.device_id p.config_version status)
          (with_engine (invalidate_config h.device_id) i2) in
      log_line h.device_id (if applied then 1 else 2)
        (text "CONFIG_ACK v" ++ (str_int p.config_version ++ (text " " ++ status))) none now i3

  ack_job : Option FwJob → Text → Text → Time → Ingest → Ingest
  unfolding announce with_db in_progress
  ack_job none device_id status now i = i
  ack_job (some job) device_id status now i =
      let i' = with_db (fw_job_update job.id status now) i in
      if in_progress job
      then announce (Event.fw_job device_id (fw_job_get i'.world.db job.id)) i'
      else i

  on_fw_ack : Header → FwAck → Time → Ingest → Ingest
  unfolding ack_job log_line
  on_fw_ack h p now i =
      let status = name_of fw_ack_status p.status in
      log_line h.device_id 1 (text "FW_ACK " ++ (status ++ (text " " ++ p.version))) none now
        (ack_job (fw_job_latest i.world.db h.device_id) h.device_id status now i)

  on_fault_ack : Header → FaultAck → Time → Ingest → Ingest
  unfolding announce with_db
  on_fault_ack h p now i =
      announce (Event.fault_ack h.device_id p.active_flags)
        (with_db (fault_injection_ack h.device_id p.active_flags now) i)

  unfoldable pub dispatch : Net → Header → Payload → Time → Ingest → Did (Unit {0})
  unfolding on_hello on_heartbeat on_log on_config_ack on_fw_ack on_fault_ack handle_telemetry
  dispatch net h (Payload.hello p) now i = on_hello net h p now i
  dispatch net h (Payload.heartbeat p) now i = done (on_heartbeat h p now i)
  dispatch net h (Payload.log p) now i = done (on_log h p now i)
  dispatch net h (Payload.config_ack p) now i = done (on_config_ack h p now i)
  dispatch net h (Payload.fw_ack p) now i = done (on_fw_ack h p now i)
  dispatch net h (Payload.fault_ack p) now i = done (on_fault_ack h p now i)
  dispatch net h (Payload.telemetry p) now i = done (handle_telemetry h p now i)
  dispatch net h p now i = done i

  -- What a connection's handler keeps between frames: the device that the first frame named.
  first_frame : Option Text → Header → ℕ → Ingest → Ingest
  unfolding register
  first_frame none h conn i = register h.device_id conn i
  first_frame (some d) h conn i = i

  -- One frame of a connection: the first one registers the device, frames of others are skipped.
  unfoldable pub on_frame : Net → ℕ → Option Text → Frame → Time → Ingest → Did (Option Text)
  unfolding first_frame dispatch
  on_frame net conn named f now i =
      let mine : Bool = elim named [ none ↦ true | some d ↦ f.header.device_id === d ] in
      let i1 = first_frame named f.header conn i in
      if mine
      then then_do
          (dispatch net f.header f.payload now (record i1 { total_frames = i1.total_frames + 1 }))
          (λ x i2. (i2, ok (some f.header.device_id)))
      else (i, ok named)

  -- The finally part of _handle_tcp; an empty device id counts as none.
  unfoldable pub disconnect : ℕ → Option Text → Ingest → Ingest
  unfolding announce set_st st
  disconnect conn none i = i
  disconnect conn (some []) i = i
  disconnect conn (some (x ∷ xs)) i =
      let d : Text = x ∷ xs in
      let mine : Bool = elim (lookup d i.writers) [ none ↦ false | some c ↦ c == conn ] in
      let i1 : Ingest = record i { writers = remove d i.writers } in
      if mine
      then announce (Event.tcp d false) (set_st d (record (st d i1) { tcp_connected = false }) i1)
      else i

  -- A connection after a read: its device, or none when an exception has ended it.
  served : Did (Option Text) → ℕ → Text → Ingest × Option (Option Text)
  unfolding disconnect
  served (i, ok named) conn d = (i, some named)
  served (i, err e) conn d = (disconnect conn (some d) i, none)

  -- The frames of one read, in order.
  unfoldable pub on_frames :
      Net → ℕ → Option Text → List Frame → Time → Ingest → Ingest × Option (Option Text)
  unfolding on_frame served
  on_frames net conn named [] now i = (i, some named)
  on_frames net conn named (f ∷ fs) now i =
      let (i', r) = served (on_frame net conn named f now i) conn f.header.device_id in
      elim r [ none ↦ (i', none) | some named' ↦ on_frames net conn named' fs now i' ]

  abbrev overdue : Option Time → Time → Bool
  overdue none now = false
  overdue (some t) now = not (t == 0) && ltb (t + offline_after) now

  -- The two loops of _offline_loop, over the devices as they stand when it begins.
  scan_stats : List (Text × DeviceStats) → Time → Ingest → Ingest
  unfolding set_presence
  scan_stats [] now i = i
  scan_stats ((d, s) ∷ rest) now i =
      scan_stats rest now
        (if s.online && overdue s.last_seen now then set_presence d false now i else i)

  scan_devices : List Device → Time → Ingest → Ingest
  unfolding set_presence
  scan_devices [] now i = i
  scan_devices (d ∷ rest) now i =
      let unknown : Bool = elim (lookup d.device_id i.stats) [ none ↦ true | some s ↦ false ] in
      scan_devices rest now (
        if d.online && (unknown && overdue d.last_seen now)
        then set_presence d.device_id false now i
        else i)

  unfoldable pub offline_scan : Time → Ingest → Ingest
  unfolding scan_stats scan_devices
  offline_scan now i = let i' = scan_stats i.stats now i in scan_devices i'.world.db.devices now i'
