-- ===== src/Api/Registry.antt =====
-- The firmware registry and its deployment: firmware_add and firmware_deploy of backend/app/api.py.
use ecu_telemetry.Prelude.{ℕ, Bool, Option, none, some, ◌++◌, ◌==◌, if◌then◌else◌}
use ecu_telemetry.Python.Result.{Result, ok, err}
use ecu_telemetry.Python.Floats.{Floats}
use ecu_telemetry.Python.Text.{Text, text}
use ecu_telemetry.Python.Decimal.{str_int}
use ecu_telemetry.Bus.{Time}
use ecu_telemetry.Db.Types.{Device, Firmware}
use ecu_telemetry.Db.Devices.{get_device}
use ecu_telemetry.Db.Firmware.{firmware_get, fw_job_create, fw_job_get, fw_job_update}
use ecu_telemetry.World.Types.{Event}
use ecu_telemetry.Ingest.State.{Ingest, Net, with_db, announce}
use ecu_telemetry.Ingest.Push.{Did, push_fw}
use ecu_telemetry.Ingest.Dispatch.{log_line}
use ecu_telemetry.Python.Result.{is_protocol_error}
use ecu_telemetry.Python.Struct.{Bytes}
use ecu_telemetry.Python.Utf8.{utf8_encode}
use ecu_telemetry.Protocol.Firmware.{fw_encode}
use ecu_telemetry.Protocol.Frame.{checksum}
use ecu_telemetry.Db.Firmware.{firmware_add}
use ecu_telemetry.Api.{answered, refused, raised, Reply, pushed_text}

module _ ⦃fl : Floats⦄ where
  -- The job's status after the push, its log line and its event.
  unfoldable pub deploy_pushed : Did Bool → ℕ → Text → Text → Time → Reply Bool
  unfolding with_db announce log_line
  deploy_pushed (i, err e) jid device_id version now = (i, raised e)
  deploy_pushed (i, ok pushed) jid device_id version now =
      let status = if pushed then text "sent" else text "queued" in
      let i1 = with_db (fw_job_update jid status now) i in
      let job = fw_job_get i1.world.db jid in
      let message =
        text "FW_UPDATE -> " ++ (version ++ (text " " ++ pushed_text pushed (text "queued"))) in
      (
        announce (Event.fw_job device_id job) (log_line device_id 1 message none now i1),
        answered pushed,
      )

  unfoldable pub deploy_found :
      Net → Option Firmware → Device → Text → Text → Time → Ingest → Reply Bool
  unfolding deploy_pushed with_db push_fw
  deploy_found net none d device_id version now i = (i, refused 404)
  deploy_found net (some fw) d device_id version now i =
      let (db, job) = fw_job_create device_id version d.fw_version now i.world.db in
      deploy_pushed (push_fw net device_id fw now (with_db (λ x. db) i)) job.id device_id version
        now

  unfoldable pub deploy_known : Net → Option Device → Text → Text → Time → Ingest → Reply Bool
  unfolding deploy_found
  deploy_known net none device_id version now i = (i, refused 404)
  deploy_known net (some d) device_id version now i =
      deploy_found net (firmware_get i.world.db version) d device_id version now i

  unfoldable pub firmware_deploy : Net → Text → Text → Time → Ingest → Reply Bool
  unfolding deploy_known
  firmware_deploy net device_id version now i =
      deploy_known net (get_device i.world.db device_id) device_id version now i

  -- b"fw:" and the parts, as UTF-8, which raises on a surrogate.
  abbrev pub image_text : Text → ℕ → Text
  image_text version size = text "fw:" ++ (version ++ (text ":" ++ str_int size))

  unfoldable pub found_firmware : Option Firmware → Ingest → Reply Firmware
  found_firmware none i = (i, refused 500)
  found_firmware (some fw) i = (i, answered fw)

  unfoldable pub add_image : Result Bytes → Text → Text → ℕ → Time → Ingest → Reply Firmware
  unfolding found_firmware with_db
  add_image (err e) version notes size now i = (i, raised e)
  add_image (ok image) version notes size now i =
      let i' = with_db (firmware_add version notes size (checksum image) now) i in
      found_firmware (firmware_get i'.world.db version) i'

  unfoldable pub register_version : Result ℕ → Text → Text → ℕ → Time → Ingest → Reply Firmware
  unfolding add_image
  register_version (err e) version notes size now i =
      if is_protocol_error e then (i, refused 422) else (i, raised e)
  register_version (ok v) version notes size now i =
      add_image (utf8_encode (image_text version size)) version notes size now i

  -- firmware_add of the API; a size below 1 is refused with the body.
  unfoldable pub post_firmware : Text → Text → ℕ → Time → Ingest → Reply Firmware
  unfolding register_version
  post_firmware version notes size now i =
      if size == 0
      then (i, refused 422)
      else register_version (fw_encode version) version notes size now i
