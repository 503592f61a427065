-- ===== src/Api/Steps.antt =====
-- What the handlers of backend/app/api.py leave of the alerts.
pub mod Run
pub mod Acknowledge
use ecu_telemetry.Prelude.{
  ℕ, ◌≡◌, refl, ◌⊎◌, inl, inr, ◌==◌, Bool, true, false, Option, none, some, List, [], ◌∷◌, ◌++◌,
  if◌then◌else◌,
}
use ecu_telemetry.Python.Result.{Result, ok, err, Error, is_protocol_error}
use ecu_telemetry.Python.Floats.{Floats}
use ecu_telemetry.Python.Struct.{Bytes}
use ecu_telemetry.Python.Text.{Text, text}
use ecu_telemetry.Python.Utf8.{utf8_encode}
use ecu_telemetry.Protocol.Frame.{checksum}
use ecu_telemetry.Bus.{Time}
use ecu_telemetry.Protocol.Flags.{names_to_flags}
use ecu_telemetry.Protocol.Firmware.{fw_encode}
use ecu_telemetry.Db.Types.{
  AlertStatus, opened, acked, resolved, Device, DeviceConfig, Firmware, Alert,
}
use ecu_telemetry.Db.Alerts.{get_alert}
use ecu_telemetry.Db.Alerts.Acked.{ack_fields, ack-IsUnique}
use ecu_telemetry.Db.Config.{new_config}
use ecu_telemetry.Db.Devices.{get_device, fault_injection_add}
use ecu_telemetry.Db.Firmware.{firmware_get, firmware_add, fw_job_create, fw_job_update}
use ecu_telemetry.Ingest.State.{Ingest, Net, with_db, announce, st, set_st}
use ecu_telemetry.Ingest.State.Keeps.{Sound}
use ecu_telemetry.Ingest.Push.{Did, push_config, push_fw, push_fault, push_cmd}
use ecu_telemetry.Ingest.Dispatch.Steps.{Step, Step-Sound, log_line-Sound}
use ecu_telemetry.Ingest.Push.Kept.{
  push_config-Sound, push_fw-Sound, push_fault-Sound, push_cmd-Sound,
}
use ecu_telemetry.Api.{Answer, Reply}
use ecu_telemetry.Api.Config.{
  ConfigBody, log_level_of, config_pushed, config_made, config_level, config_known, in_bounds,
  put_config,
}
use ecu_telemetry.Api.Registry.{
  image_text, deploy_pushed, deploy_found, deploy_known, firmware_deploy, found_firmware, add_image,
  register_version, post_firmware,
}
use ecu_telemetry.Api.Control.{
  not_connected, fault_read, fault_known, fault_inject, cmd_known, device_cmd, ack_status,
  ack_found, told, ack_alert,
}
use ecu_telemetry.Db.Diagnoses.{save_diagnosis}
use ecu_telemetry.Diagnostics.Context.{Context, build_context}
use ecu_telemetry.Diagnostics.Heuristic.{Claude, diagnose}
use ecu_telemetry.Api.Views.{views_of, device_view, devices}

module _ ⦃fl : Floats⦄ where
  reply_if-Sound :
      {A : Type 0} (b : Bool) (x y : Reply A) → Sound x.0 → Sound y.0 → Sound (if b then x else y).0
  reply_if-Sound true x y p q = p
  reply_if-Sound false x y p q = q

  config_pushed-Sound :
      (x : Did Bool) (d : Text) (now : Time) → Sound x.0 → Sound (config_pushed x d now).0
  unfolding config_pushed announce
  config_pushed-Sound (i, err e) d now u = u
  config_pushed-Sound (i, ok b) d now u = log_line-Sound d 1 _ none now i u

  config_made-Sound :
      (net : Net) (o : Option DeviceConfig) (d : Text) (now : Time) (i : Ingest)
      → Sound i
      → Sound (config_made net o d now i).0
  unfolding config_made
  config_made-Sound net none d now i u = u
  config_made-Sound net (some c) d now i u =
      config_pushed-Sound (push_config net d c now i) d now (push_config-Sound net d c now i u)

  config_level-Sound :
      (net : Net) (o : Option ℕ) (d : Text) (b : ConfigBody) (now : Time) (i : Ingest)
      → Sound i
      → Sound (config_level net o d b now i).0
  unfolding config_level with_db new_config
  config_level-Sound net none d b now i u = u
  config_level-Sound net (some l) d b now i u =
      let made =
        new_config d b.telemetry_hz l b.rpm_limit b.temp_limit_c b.current_limit_a now i.world.db in
      config_made-Sound net made.1 d now (with_db (λ db. made.0) i) u

  config_known-Sound :
      (net : Net) (o : Option Device) (d : Text) (b : ConfigBody) (now : Time) (i : Ingest)
      → Sound i
      → Sound (config_known net o d b now i).0
  unfolding config_known
  config_known-Sound net none d b now i u = u
  config_known-Sound net (some x) d b now i u =
      config_level-Sound net (log_level_of b.log_level) d b now i u

  put_config-Sound :
      (net : Net) (d : Text) (b : ConfigBody) (now : Time) (i : Ingest)
      → Sound i
      → Sound (put_config net d b now i).0
  unfolding put_config
  put_config-Sound net d b now i u =
      reply_if-Sound (in_bounds b) _ _
        (config_known-Sound net (get_device i.world.db d) d b now i u) u

  deploy_pushed-Sound :
      (x : Did Bool) (j : ℕ) (d v : Text) (now : Time)
      → Sound x.0
      → Sound (deploy_pushed x j d v now).0
  unfolding deploy_pushed announce with_db fw_job_update
  deploy_pushed-Sound (i, err e) j d v now u = u
  deploy_pushed-Sound (i, ok b) j d v now u =
      let status = if b then text "sent" else text "queued" in
      log_line-Sound d 1 _ none now (with_db (fw_job_update j status now) i) u

  deploy_found-Sound :
      (net : Net) (o : Option Firmware) (x : Device) (d v : Text) (now : Time) (i : Ingest)
      → Sound i
      → Sound (deploy_found net o x d v now i).0
  unfolding deploy_found with_db fw_job_create
  deploy_found-Sound net none x d v now i u = u
  deploy_found-Sound net (some fw) x d v now i u =
      let i1 = with_db (λ db. (fw_job_create d v x.fw_version now i.world.db).0) i in
      deploy_pushed-Sound (push_fw net d fw now i1) i.world.db.next_job d v now
        (push_fw-Sound net d fw now i1 u)

  deploy_known-Sound :
      (net : Net) (o : Option Device) (d v : Text) (now : Time) (i : Ingest)
      → Sound i
      → Sound (deploy_known net o d v now i).0
  unfolding deploy_known
  deploy_known-Sound net none d v now i u = u
  deploy_known-Sound net (some x) d v now i u =
      deploy_found-Sound net (firmware_get i.world.db v) x d v now i u

  found_firmware-Sound : (o : Option Firmware) (i : Ingest) → Sound i → Sound (found_firmware o i).0
  unfolding found_firmware
  found_firmware-Sound none i u = u
  found_firmware-Sound (some fw) i u = u

  add_image-Sound :
      (r : Result Bytes) (v n : Text) (size : ℕ) (now : Time) (i : Ingest)
      → Sound i
      → Sound (add_image r v n size now i).0
  unfolding add_image with_db firmware_add
  add_image-Sound (err e) v n size now i u = u
  add_image-Sound (ok b) v n size now i u =
      let i1 = with_db (firmware_add v n size (checksum b) now) i in
      found_firmware-Sound (firmware_get i1.world.db v) i1 u

  register_version-Sound :
      (r : Result ℕ) (v n : Text) (size : ℕ) (now : Time) (i : Ingest)
      → Sound i
      → Sound (register_version r v n size now i).0
  unfolding register_version
  register_version-Sound (err e) v n size now i u = reply_if-Sound (is_protocol_error e) _ _ u u
  register_version-Sound (ok x) v n size now i u =
      add_image-Sound (utf8_encode (image_text v size)) v n size now i u

  not_connected-Sound :
      (x : Did Bool) (d : Text) (l : ℕ) (m : Text) (now : Time)
      → Sound x.0
      → Sound (not_connected x d l m now).0
  unfolding not_connected
  not_connected-Sound (i, err e) d l m now u = u
  not_connected-Sound (i, ok true) d l m now u = log_line-Sound d l _ none now i u
  not_connected-Sound (i, ok false) d l m now u = log_line-Sound d l _ none now i u

  fault_read-Sound :
      (net : Net) (s c : Result ℕ) (d : Text) (t : ℕ) (now : Time) (i : Ingest)
      → Sound i
      → Sound (fault_read net s c d t now i).0
  unfolding fault_read with_db fault_injection_add
  fault_read-Sound net (ok s) (ok c) d t now i u =
      let i1 = with_db (λ db. (fault_injection_add d s c t now db).0) i in
      not_connected-Sound (push_fault net d s c t now i1) d 2 _ now
        (push_fault-Sound net d s c t now i1 u)
  fault_read-Sound net (ok s) (err e) d t now i u = u
  fault_read-Sound net (err e) c d t now i u = u

  fault_known-Sound :
      (net : Net) (o : Option Device) (d : Text) (s c : List Text) (t : ℕ) (now : Time) (i : Ingest)
      → Sound i
      → Sound (fault_known net o d s c t now i).0
  unfolding fault_known
  fault_known-Sound net none d s c t now i u = u
  fault_known-Sound net (some x) d s c t now i u =
      fault_read-Sound net (names_to_flags s) (names_to_flags c) d t now i u

  cmd_known-Sound :
      (net : Net) (o : Option Device) (d : Text) (cmd : ℕ) (name : Text) (now : Time) (i : Ingest)
      → Sound i
      → Sound (cmd_known net o d cmd name now i).0
  unfolding cmd_known
  cmd_known-Sound net none d cmd name now i u = u
  cmd_known-Sound net (some x) d cmd name now i u =
      not_connected-Sound (push_cmd net d cmd now i) d 1 _ now (push_cmd-Sound net d cmd now i u)

  ack_status-Sound :
      (s : AlertStatus) (a : Alert) (aid : ℕ) (now : Time) (i : Ingest)
      → a.status ≡ s
      → get_alert i.world.db aid ≡ some a
      → Sound i
      → Sound (ack_status s aid now i)
  unfolding ack_status with_db
  ack_status-Sound opened a aid now i e h u = ack-IsUnique i.world.db aid now a h e u
  ack_status-Sound acked a aid now i e h u = u
  ack_status-Sound resolved a aid now i e h u = u

  ack_found-Sound :
      (o : Option Alert) (aid : ℕ) (now : Time) (i : Ingest)
      → get_alert i.world.db aid ≡ o
      → Sound i
      → Sound (ack_found o aid now i)
  unfolding ack_found
  ack_found-Sound none aid now i h u = u
  ack_found-Sound (some a) aid now i h u = ack_status-Sound a.status a aid now i refl h u

  told-Sound : (o : Option Alert) (i : Ingest) → Sound i → Sound (told o i).0
  unfolding told announce
  told-Sound none i u = u
  told-Sound (some a) i u = u

  ack_alert-Sound : (aid : ℕ) (now : Time) (i : Ingest) → Sound i → Sound (ack_alert aid now i).0
  unfolding ack_alert
  ack_alert-Sound aid now i u =
      let i1 = ack_found (get_alert i.world.db aid) aid now i in
      told-Sound (get_alert i1.world.db aid) i1
        (ack_found-Sound (get_alert i.world.db aid) aid now i refl u)

  views_of-Sound : (ds : List Device) (i : Ingest) → Sound i → Sound (views_of ds i).0
  unfolding views_of device_view set_st
  views_of-Sound [] i u = u
  views_of-Sound (d ∷ ds) i u = views_of-Sound ds (device_view d i).0 u

  diagnose-Sound :
      (iso : Time → Text) (ask : Context → Claude) (model d : Text) (now : Time) (i : Ingest)
      → Sound i
      → Sound (diagnose iso ask model d now i).0
  unfolding diagnose build_context set_st with_db save_diagnosis
  diagnose-Sound iso ask model d now i u = u
