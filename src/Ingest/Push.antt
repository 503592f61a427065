-- ===== src/Ingest/Push.antt =====
-- Frames from the server to a device, in backend/app/ingest.py: send and the pushes.
pub mod Kept
use ecu_telemetry.Prelude.{
  ℕ, ◌+◌, ◌*◌, ◌/◌, Bool, true, false, not, ◌&&◌, ◌||◌, Option, none, some, List, [], ◌∷◌, ◌++◌,
  ltb, leb, ◌==◌, ◌≡◌, refl, if◌then◌else◌,
}
use ecu_telemetry.Prelude.Tables.{Dict, lookup, insert, remove}
use ecu_telemetry.Python.Result.{Result, ok, err, Error}
use ecu_telemetry.Python.Floats.{Floats}
use ecu_telemetry.Python.Struct.{Bytes}
use ecu_telemetry.Python.Text.{Text, text, ◌===◌}
use ecu_telemetry.Python.Decimal.{str_int}
use ecu_telemetry.Bus.{Time}
use ecu_telemetry.Protocol.Header.{Header}
use ecu_telemetry.Protocol.Payload.Types.{
  Payload, Hello, Heartbeat, Log, ConfigAck, ConfigSet, FwAck, FwUpdate, FaultAck, FaultInject, Cmd,
  name_of, log_levels, config_ack_status, fw_ack_status,
}
use ecu_telemetry.Protocol.Payload.Codec.{payload_type}
use ecu_telemetry.Protocol.Frame.{Frame, encode}
use ecu_telemetry.Db.Types.{Device, DeviceConfig, Firmware, FwJob, Database}
use ecu_telemetry.Db.Devices.{upsert_device, get_device, add_log, fault_injection_ack}
use ecu_telemetry.Db.Config.{current_config, ack_config, mark_config}
use ecu_telemetry.Db.Firmware.{in_progress, firmware_get, fw_job_get, fw_job_latest, fw_job_update}
use ecu_telemetry.World.Types.{Event, World}
use ecu_telemetry.Engine.Alerts.{tick}
use ecu_telemetry.Engine.Thresholds.{invalidate_config}
use ecu_telemetry.Ingest.Stats.{DeviceStats}
use ecu_telemetry.Ingest.State.{
  Ingest, Net, st, set_st, with_db, with_engine, announce, set_presence, seen, handle_telemetry,
  offline_after,
}

module _ ⦃fl : Floats⦄ where
  open fl use {Float}

  -- A handler's state, and what it returns or the exception that it lets pass.
  abbrev pub Did : Type 0 → Type 0
  Did A = Ingest × Result A

  abbrev pub then_do : {A B : Type 0} → Did A → (A → Ingest → Did B) → Did B
  then_do (i, err e) f = (i, err e)
  then_do (i, ok a) f = f a i

  abbrev pub done : Ingest → Did (Unit {0})
  done i = (i, ok tt)

  -- `dev.get("fw_version_u32") or 0`
  abbrev pub fw_of : Option Device → ℕ
  fw_of none = 0
  fw_of (some d) = elim d.fw_version_u32 [ none ↦ 0 | some v ↦ v ]

  -- write and drain; a ConnectionError or a RuntimeError is False.
  unfoldable pub write_frame : Net → ℕ → Result Bytes → Ingest → Did Bool
  write_frame net conn (err e) i = (i, err e)
  write_frame net conn (ok frame) i =
      if net.accepts conn frame
      then (record i { sent = (conn, frame) ∷ i.sent }, ok true)
      else (i, ok false)

  unfoldable pub send_on : Net → Option ℕ → Text → Payload → Time → Ingest → Did Bool
  unfolding write_frame st set_st
  send_on net none device_id payload now i = (i, ok false)
  send_on net (some conn) device_id payload now i =
      let s = st device_id i in
      let seq = s.tx_seq + 1 in
      let i' = set_st device_id (record s { tx_seq = seq }) i in
      let fw = fw_of (get_device i.world.db device_id) in
      if net.is_closing conn
      then (i, ok false)
      else write_frame net conn
          (encode (payload_type 0 payload) device_id seq (now / 1000) fw payload) i'

  unfoldable pub send : Net → Text → Payload → Time → Ingest → Did Bool
  unfolding send_on
  send net device_id payload now i =
      send_on net (lookup device_id i.writers) device_id payload now i

  -- Sending to a device that has no connection does nothing and answers False.
  pub send-none :
      (net : Net) (device_id : Text) (p : Payload) (now : Time) (i : Ingest)
      → lookup device_id i.writers ≡ none
      → send net device_id p now i ≡ (i, ok false)
  unfolding send send_on
  send-none net device_id p now i e = rw e refl

  abbrev pub config_payload : DeviceConfig → Payload
  config_payload cfg = Payload.config_set (record {
    config_version = cfg.version;
    telemetry_hz = cfg.telemetry_hz;
    log_level = cfg.log_level;
    rpm_limit = cfg.rpm_limit;
    temp_limit_c = cfg.temp_limit_c;
    current_limit_a = cfg.current_limit_a;
  })

  unfoldable pub push_config : Net → Text → DeviceConfig → Time → Ingest → Did Bool
  unfolding send with_db with_engine
  push_config net device_id cfg now i =
      then_do (send net device_id (config_payload cfg) now i) (λ sent i'.
        let status = if sent then text "sent" else text "queued" in
        (
          with_engine (invalidate_config device_id)
              (with_db (mark_config device_id cfg.version status) i'),
          ok sent,
        ))

  abbrev pub fw_payload : Firmware → Payload
  fw_payload fw =
      Payload.fw_update (record {
        target_version = fw.version;
        image_size_bytes = fw.size_bytes;
        image_crc = fw.crc;
      })

  unfoldable pub push_fw : Net → Text → Firmware → Time → Ingest → Did Bool
  unfolding send
  push_fw net device_id fw now i = send net device_id (fw_payload fw) now i

  unfoldable pub push_fault : Net → Text → ℕ → ℕ → ℕ → Time → Ingest → Did Bool
  unfolding send
  push_fault net device_id set clear duration now i =
      send net device_id
        (Payload.fault_inject
          (record { set_flags = set; clear_flags = clear; duration_ms = duration }))
        now i

  unfoldable pub push_cmd : Net → Text → ℕ → Time → Ingest → Did Bool
  unfolding send
  push_cmd net device_id cmd now i = send net device_id (Payload.cmd (record { cmd = cmd })) now i
