-- ===== src/Ingest/Dispatch/Steps.antt =====
-- The server's steps, and what every reachable state has.
use ecu_telemetry.Prelude.{
  ℕ, ◌+◌, Bool, true, false, not, ◌&&◌, Option, none, some, List, [], ◌∷◌, ltb, if◌then◌else◌,
}
use ecu_telemetry.Python.Floats.{Floats}
use ecu_telemetry.Python.Struct.{Bytes}
use ecu_telemetry.Python.Text.{Text, text, ◌===◌}
use ecu_telemetry.Bus.{Time}
use ecu_telemetry.Protocol.Header.{Header}
use ecu_telemetry.Protocol.Payload.Types.{
  Payload, Hello, Heartbeat, Log, ConfigAck, FwAck, FaultAck, name_of, log_levels,
  config_ack_status, fw_ack_status,
}
use ecu_telemetry.Protocol.Frame.{Frame}
use ecu_telemetry.Db.Types.{Device, DeviceConfig, Firmware, FwJob}
use ecu_telemetry.Db.Devices.{upsert_device, add_log, fault_injection_ack}
use ecu_telemetry.Db.Config.{current_config, ack_config}
use ecu_telemetry.Db.Firmware.{firmware_get, in_progress, fw_job_latest, fw_job_update}
use ecu_telemetry.World.Types.{Event}
use ecu_telemetry.Engine.Alerts.{tick}
use ecu_telemetry.Engine.Alerts.Lifecycle.Tick.{tick-IsUnique}
use ecu_telemetry.Engine.Thresholds.{invalidate_config}
use ecu_telemetry.Ingest.Stats.{DeviceStats}
use ecu_telemetry.Ingest.State.{
  Ingest, Net, set_st, with_db, with_engine, announce, seen, on_datagram,
}
use ecu_telemetry.Ingest.State.Keeps.{
  Sound, set_presence-Sound, seen-Sound, upsert-Sound, handle_telemetry-Sound, on_datagram-Sound,
}
use ecu_telemetry.Ingest.Push.{push_config}
use ecu_telemetry.Ingest.Dispatch.{
  register, hello_config, hello_fw, hello_job, job_complete, is_resendable, after_hello, log_line,
  hello_columns, on_hello, heartbeat_columns, on_heartbeat, on_log, on_config_ack, ack_job,
  on_fw_ack, on_fault_ack, dispatch, first_frame, on_frame, disconnect, scan_stats, scan_devices,
  offline_scan, overdue,
}
use ecu_telemetry.Ingest.Push.Kept.{
  if-Sound, did_if-Sound, then_do-Sound, send-Sound, push_config-Sound,
}

module _ ⦃fl : Floats⦄ where
  hello_config-Sound :
      (net : Net) (o : Option DeviceConfig) (d : Text) (p : Hello) (now : Time) (i : Ingest)
      → Sound i
      → Sound (hello_config net o d p now i).0
  unfolding hello_config
  hello_config-Sound net none d p now i u = u
  hello_config-Sound net (some c) d p now i u =
      did_if-Sound (ltb p.config_version c.version) _ _
        (then_do-Sound _ _ (push_config-Sound net d c now i u) (λ s i' h. h)) u

  hello_fw-Sound :
      (net : Net) (o : Option Firmware) (d : Text) (now : Time) (i : Ingest)
      → Sound i
      → Sound (hello_fw net o d now i).0
  unfolding hello_fw
  hello_fw-Sound net none d now i u = u
  hello_fw-Sound net (some fw) d now i u =
      then_do-Sound _ _ (send-Sound net d _ now i u) (λ s i' h. h)

  job_complete-Sound :
      (j : FwJob) (d : Text) (now : Time) (i : Ingest) → Sound i → Sound (job_complete j d now i).0
  unfolding job_complete with_db announce fw_job_update
  job_complete-Sound j d now i u = u

  hello_job-Sound :
      (net : Net) (o : Option FwJob) (d : Text) (p : Hello) (now : Time) (i : Ingest)
      → Sound i
      → Sound (hello_job net o d p now i).0
  unfolding hello_job
  hello_job-Sound net none d p now i u = u
  hello_job-Sound net (some j) d p now i u = did_if-Sound (not (in_progress j)) _ _ u (
      did_if-Sound (p.fw_string === j.target_version) _ _ (job_complete-Sound j d now i u) (
        did_if-Sound (is_resendable j) _ _
          (hello_fw-Sound net (firmware_get i.world.db j.target_version) d now i u) u))

  after_hello-Sound :
      (net : Net) (d : Text) (p : Hello) (now : Time) (i : Ingest)
      → Sound i
      → Sound (after_hello net d p now i).0
  unfolding after_hello
  after_hello-Sound net d p now i u =
      then_do-Sound _ _ (hello_config-Sound net (current_config i.world.db d) d p now i u)
        (λ x i' h. hello_job-Sound net (fw_job_latest i'.world.db d) d p now i' h)

  pub log_line-Sound :
      (d : Text) (l : ℕ) (m : Text) (ts : Option ℕ) (now : Time) (i : Ingest)
      → Sound i
      → Sound (log_line d l m ts now i)
  unfolding log_line with_db add_log
  log_line-Sound d l m ts now i u = u

  on_hello-Sound :
      (net : Net) (h : Header) (p : Hello) (now : Time) (i : Ingest)
      → Sound i
      → Sound (on_hello net h p now i).0
  unfolding on_hello announce
  on_hello-Sound net h p now i u =
      let i1 = with_db (upsert_device h.device_id (hello_columns p h now) now) i in
      let i2 =
        announce (Event.hello h.device_id p.fw_string p.hw_model p.config_version)
          (seen h.device_id now i1) in
      after_hello-Sound net h.device_id p now _ (
        log_line-Sound h.device_id 1 _ none now i2
          (seen-Sound h.device_id now i1 (upsert-Sound h.device_id _ now i u)))

  on_heartbeat-Sound :
      (h : Header) (p : Heartbeat) (now : Time) (i : Ingest)
      → Sound i
      → Sound (on_heartbeat h p now i)
  unfolding on_heartbeat
  on_heartbeat-Sound h p now i u =
      seen-Sound h.device_id now
        (with_db (upsert_device h.device_id (heartbeat_columns p now) now) i)
        (upsert-Sound h.device_id _ now i u)

  on_log-Sound :
      (h : Header) (p : Log) (now : Time) (i : Ingest) → Sound i → Sound (on_log h p now i)
  unfolding on_log announce
  on_log-Sound h p now i u =
      let row = (add_log h.device_id p.level p.message (some h.ts_ms) now i.world.db).1 in
      let i1 = log_line h.device_id p.level p.message (some h.ts_ms) now i in
      seen-Sound h.device_id now (announce (Event.log row (name_of log_levels p.level)) i1)
        (log_line-Sound h.device_id p.level p.message (some h.ts_ms) now i u)

  reported-Sound :
      (b : Bool) (d : Text) (f : Device → Device) (now : Time) (i : Ingest)
      → Sound i
      → Sound (if b then with_db (upsert_device d f now) i else i)
  reported-Sound true d f now i u = upsert-Sound d f now i u
  reported-Sound false d f now i u = u

  ack_config-Sound :
      (d : Text) (v : ℕ) (s : Text) (now : Time) (i : Ingest)
      → Sound i
      → Sound (with_db (ack_config d v s now) i)
  unfolding ack_config with_db
  ack_config-Sound d v s now i u = u

  on_config_ack-Sound :
      (h : Header) (p : ConfigAck) (now : Time) (i : Ingest)
      → Sound i
      → Sound (on_config_ack h p now i)
  unfolding on_config_ack announce with_engine invalidate_config
  on_config_ack-Sound h p now i u =
      let status = name_of config_ack_status p.status in
      let f : Device → Device = λ d. record d { reported_config_version = p.config_version } in
      let i1 = with_db (ack_config h.device_id p.config_version status now) i in
      let i2 =
        if status === text "applied" then with_db (upsert_device h.device_id f now) i1 else i1 in
      let i3 =
        announce (Event.config_ack h.device_id p.config_version status)
          (with_engine (invalidate_config h.device_id) i2) in
      log_line-Sound h.device_id _ _ none now i3 (
        reported-Sound (status === text "applied") h.device_id f now i1
          (ack_config-Sound h.device_id p.config_version status now i u))

  ack_job-Sound :
      (o : Option FwJob) (d s : Text) (now : Time) (i : Ingest)
      → Sound i
      → Sound (ack_job o d s now i)
  unfolding ack_job announce with_db fw_job_update
  ack_job-Sound none d s now i u = u
  ack_job-Sound (some j) d s now i u = if-Sound (in_progress j) _ _ u u

  on_fw_ack-Sound :
      (h : Header) (p : FwAck) (now : Time) (i : Ingest) → Sound i → Sound (on_fw_ack h p now i)
  unfolding on_fw_ack
  on_fw_ack-Sound h p now i u =
      let status = name_of fw_ack_status p.status in
      let job = fw_job_latest i.world.db h.device_id in
      log_line-Sound h.device_id 1 _ none now (ack_job job h.device_id status now i)
        (ack_job-Sound job h.device_id status now i u)

  on_fault_ack-Sound :
      (h : Header) (p : FaultAck) (now : Time) (i : Ingest)
      → Sound i
      → Sound (on_fault_ack h p now i)
  unfolding on_fault_ack announce with_db fault_injection_ack
  on_fault_ack-Sound h p now i u = u

  dispatch-Sound :
      (net : Net) (h : Header) (p : Payload) (now : Time) (i : Ingest)
      → Sound i
      → Sound (dispatch net h p now i).0
  unfolding dispatch
  dispatch-Sound net h (Payload.hello p) now i u = on_hello-Sound net h p now i u
  dispatch-Sound net h (Payload.heartbeat p) now i u = on_heartbeat-Sound h p now i u
  dispatch-Sound net h (Payload.log p) now i u = on_log-Sound h p now i u
  dispatch-Sound net h (Payload.config_ack p) now i u = on_config_ack-Sound h p now i u
  dispatch-Sound net h (Payload.fw_ack p) now i u = on_fw_ack-Sound h p now i u
  dispatch-Sound net h (Payload.fault_ack p) now i u = on_fault_ack-Sound h p now i u
  dispatch-Sound net h (Payload.telemetry p) now i u = handle_telemetry-Sound h p now i u
  dispatch-Sound net h _ now i u = u

  first_frame-Sound :
      (o : Option Text) (h : Header) (c : ℕ) (i : Ingest) → Sound i → Sound (first_frame o h c i)
  unfolding first_frame register announce set_st
  first_frame-Sound none h c i u = u
  first_frame-Sound (some d) h c i u = u

  on_frame-Sound :
      (net : Net) (c : ℕ) (o : Option Text) (f : Frame) (now : Time) (i : Ingest)
      → Sound i
      → Sound (on_frame net c o f now i).0
  unfolding on_frame
  on_frame-Sound net c o f now i u =
      let i1 = first_frame o f.header c i in
      did_if-Sound _ _ _
        (then_do-Sound _ _
          (dispatch-Sound net f.header f.payload now
            (record i1 { total_frames = i1.total_frames + 1 }) (first_frame-Sound o f.header c i u))
          (λ x i2 h. h))
        u

  disconnect-Sound : (c : ℕ) (o : Option Text) (i : Ingest) → Sound i → Sound (disconnect c o i)
  unfolding disconnect announce set_st
  disconnect-Sound c none i u = u
  disconnect-Sound c (some []) i u = u
  disconnect-Sound c (some (x ∷ xs)) i u = if-Sound _ _ _ u u

  scan_stats-Sound :
      (ss : List (Text × DeviceStats)) (now : Time) (i : Ingest)
      → Sound i
      → Sound (scan_stats ss now i)
  unfolding scan_stats
  scan_stats-Sound [] now i u = u
  scan_stats-Sound ((d, s) ∷ ss) now i u =
      scan_stats-Sound ss now _
        (if-Sound (s.online && overdue s.last_seen now) _ _ (set_presence-Sound d false now i u) u)

  scan_devices-Sound :
      (ds : List Device) (now : Time) (i : Ingest) → Sound i → Sound (scan_devices ds now i)
  unfolding scan_devices
  scan_devices-Sound [] now i u = u
  scan_devices-Sound (d ∷ ds) now i u =
      scan_devices-Sound ds now _ (if-Sound _ _ _ (set_presence-Sound d.device_id false now i u) u)

  offline_scan-Sound : (now : Time) (i : Ingest) → Sound i → Sound (offline_scan now i)
  unfolding offline_scan
  offline_scan-Sound now i u =
      let i' = scan_stats i.stats now i in
      scan_devices-Sound i'.world.db.devices now i' (scan_stats-Sound i.stats now i u)

  -- What the server's tasks do between two awaits, at some time and with some behaviour of the network.
  pub data Step (net : Net) : Ingest → Ingest → Type 0 where
    datagram : (bytes : Bytes) (now : Time) (i : Ingest) → Step net i (on_datagram bytes now i)
    frame :
        (conn : ℕ) (named : Option Text) (f : Frame) (now : Time) (i : Ingest)
        → Step net i (on_frame net conn named f now i).0
    closed : (conn : ℕ) (named : Option Text) (i : Ingest) → Step net i (disconnect conn named i)
    scan : (now : Time) (i : Ingest) → Step net i (offline_scan now i)
    ticked : (now : Time) (i : Ingest) → Step net i (with_engine (tick now) i)
    configured :
        (d : Text) (c : DeviceConfig) (now : Time) (i : Ingest)
        → Step net i (push_config net d c now i).0

  pub data Reach (net : Net) : Ingest → Ingest → Type 0 where
    here : (i : Ingest) → Reach net i i
    step : (i j k : Ingest) → Reach net i j → Step net j k → Reach net i k

  pub Step-Sound : (net : Net) (i j : Ingest) → Step net i j → Sound i → Sound j
  unfolding with_engine
  Step-Sound net i j (datagram bytes now _) u = on_datagram-Sound bytes now i u
  Step-Sound net i j (frame c o f now _) u = on_frame-Sound net c o f now i u
  Step-Sound net i j (closed c o _) u = disconnect-Sound c o i u
  Step-Sound net i j (scan now _) u = offline_scan-Sound now i u
  Step-Sound net i j (ticked now _) u = tick-IsUnique now i.world u
  Step-Sound net i j (configured d c now _) u = push_config-Sound net d c now i u

  -- In every state that the server reaches by these steps from one with one open alert at most for each
  -- device and rule and no two alerts with one id, that is so again.
  pub Reach-Sound : (net : Net) (i j : Ingest) → Reach net i j → Sound i → Sound j
  Reach-Sound net i j (here _) u = u
  Reach-Sound net i k (step _ j _ r s) u = Step-Sound net j k s (Reach-Sound net i j r u)
