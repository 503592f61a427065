-- ===== src/Api/Deploy.antt =====
-- What a deployment leaves for the device's next HELLO.
use mathlib.Core.Path.{subst}
use ecu_telemetry.Python.Result.{ok}
use ecu_telemetry.Prelude.{◌≡◌, refl, sym, Bool, true, false, Option, none, some, [], ◌∷◌, ==_refl}
use ecu_telemetry.Prelude.Tables.{lookup}
use ecu_telemetry.Python.Floats.{Floats}
use ecu_telemetry.Python.Text.{Text, text, ◌===◌, ===_refl}
use ecu_telemetry.Bus.{Time}
use ecu_telemetry.Db.Types.{Device, Firmware, FwJob}
use ecu_telemetry.Db.Devices.{get_device, add_log}
use ecu_telemetry.Db.Firmware.{
  firmware_get, fw_job_create, fw_job_latest, fw_job_update, in_progress,
}
use ecu_telemetry.Ingest.State.{Ingest, Net, with_db, announce}
use ecu_telemetry.Ingest.Push.{Did, send-none, fw_payload, push_fw}
use ecu_telemetry.Ingest.Dispatch.{log_line, is_resendable}
use ecu_telemetry.Api.Registry.{firmware_deploy, deploy_known, deploy_found, deploy_pushed}

module _ ⦃fl : Floats⦄ where
  -- A deployment's job that waits for the device.
  abbrev pub Waits : Text → Text → Ingest → Type 0
  Waits device_id version i =
      (j : FwJob) × (fw_job_latest i.world.db device_id ≡ some j)
      × (j.target_version ≡ version)
      × (j.status ≡ text "queued")
      × (in_progress j ≡ true)
      × (is_resendable j ≡ false)

  queued-Waits :
      (device_id version : Text) (now : Time) (i : Ingest) (d : Device)
      → Waits device_id version
          (deploy_pushed
            (
              (with_db (λ x. (fw_job_create device_id version d.fw_version now i.world.db).0) i),
              ok false,
            )
            i.world.db.next_job
            device_id
            version
            now).0
  unfolding deploy_pushed with_db announce log_line add_log fw_job_create fw_job_latest
      fw_job_update in_progress is_resendable ◌===◌
  queued-Waits device_id version now i d = (
    record {
      id = i.world.db.next_job;
      device_id = device_id;
      target_version = version;
      from_version = d.fw_version;
      status = text "queued";
      created_at = now;
      updated_at = now;
      history = (text "pending", now) ∷ (text "queued", now) ∷ [];
    },
    rw (==_refl i.world.db.next_job, ===_refl device_id) refl,
    refl,
    refl,
    refl,
    refl,
  )

  deploy_found-Waits :
      (net : Net) (device_id version : Text) (now : Time) (i : Ingest) (d : Device) (fw : Firmware)
      → lookup device_id i.writers ≡ none
      → Waits device_id version (deploy_found net (some fw) d device_id version now i).0
  unfolding deploy_found push_fw fw_job_create
  deploy_found-Waits net device_id version now i d fw e =
      let i1 = with_db (λ x. (fw_job_create device_id version d.fw_version now i.world.db).0) i in
      subst
        (λ (x : Did Bool).
          Waits device_id version (deploy_pushed x i.world.db.next_job device_id version now).0)
        (sym (send-none net device_id (fw_payload fw) now i1 (unfold with_db in e)))
        (queued-Waits device_id version now i d)

  -- Deploying a registered firmware to a known device that has no connection leaves the device's
  -- latest job queued: in progress, and not among those that a HELLO sends again.
  pub firmware_deploy-Waits :
      (net : Net) (device_id version : Text) (now : Time) (i : Ingest) (d : Device) (fw : Firmware)
      → get_device i.world.db device_id ≡ some d
      → firmware_get i.world.db version ≡ some fw
      → lookup device_id i.writers ≡ none
      → Waits device_id version (firmware_deploy net device_id version now i).0
  unfolding firmware_deploy deploy_known
  firmware_deploy-Waits net device_id version now i d fw p q e =
      subst
        (λ (o : Option Device).
          Waits device_id version (deploy_known net o device_id version now i).0)
        (sym p)
        (subst
          (λ (o : Option Firmware).
            Waits device_id version (deploy_found net o d device_id version now i).0)
          (sym q) (deploy_found-Waits net device_id version now i d fw e))
