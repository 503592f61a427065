-- ===== src/Api/Steps/Run.antt =====
-- The server's own steps and the requests of backend/app/api.py, in any order.
use ecu_telemetry.Prelude.{ℕ, List, ◌==◌}
use ecu_telemetry.Python.Floats.{Floats}
use ecu_telemetry.Python.Text.{Text}
use ecu_telemetry.Bus.{Time}
use ecu_telemetry.Protocol.Firmware.{fw_encode}
use ecu_telemetry.Db.Devices.{get_device}
use ecu_telemetry.Ingest.State.{Ingest, Net}
use ecu_telemetry.Ingest.State.Keeps.{Sound}
use ecu_telemetry.Ingest.Dispatch.Steps.{Step, Step-Sound}
use ecu_telemetry.Api.Config.{ConfigBody, put_config}
use ecu_telemetry.Api.Registry.{firmware_deploy, post_firmware}
use ecu_telemetry.Api.Control.{fault_inject, device_cmd, ack_alert}
use ecu_telemetry.Diagnostics.Context.{Context}
use ecu_telemetry.Diagnostics.Heuristic.{Claude, diagnose}
use ecu_telemetry.Api.Views.{devices}
use ecu_telemetry.Api.Steps.{
  put_config-Sound, deploy_known-Sound, reply_if-Sound, register_version-Sound, fault_known-Sound,
  cmd_known-Sound, ack_alert-Sound, views_of-Sound, diagnose-Sound,
}

module _ ⦃fl : Floats⦄ where
  -- A step of the server, or a request that the API has answered.
  pub data Served (net : Net) : Ingest → Ingest → Type 0 where
    own : (i j : Ingest) → Step net i j → Served net i j
    configure :
        (d : Text) (b : ConfigBody) (now : Time) (i : Ingest)
        → Served net i (put_config net d b now i).0
    deploy : (d v : Text) (now : Time) (i : Ingest) → Served net i (firmware_deploy net d v now i).0
    register :
        (v notes : Text) (size : ℕ) (now : Time) (i : Ingest)
        → Served net i (post_firmware v notes size now i).0
    inject :
        (d : Text) (set clear : List Text) (ms : ℕ) (now : Time) (i : Ingest)
        → Served net i (fault_inject net d set clear ms now i).0
    command :
        (d : Text) (cmd : ℕ) (name : Text) (now : Time) (i : Ingest)
        → Served net i (device_cmd net d cmd name now i).0
    acknowledge : (aid : ℕ) (now : Time) (i : Ingest) → Served net i (ack_alert aid now i).0
    view : (i : Ingest) → Served net i (devices i).0
    diagnosed :
        (iso : Time → Text) (ask : Context → Claude) (model d : Text) (now : Time) (i : Ingest)
        → Served net i (diagnose iso ask model d now i).0

  pub data Run (net : Net) : Ingest → Ingest → Type 0 where
    here : (i : Ingest) → Run net i i
    next : (i j k : Ingest) → Run net i j → Served net j k → Run net i k

  Served-Sound : (net : Net) (i j : Ingest) → Served net i j → Sound i → Sound j
  unfolding firmware_deploy post_firmware fault_inject device_cmd devices
  Served-Sound net i j (own _ _ s) u = Step-Sound net i j s u
  Served-Sound net i j (configure d b now _) u = put_config-Sound net d b now i u
  Served-Sound net i j (deploy d v now _) u =
      deploy_known-Sound net (get_device i.world.db d) d v now i u
  Served-Sound net i j (register v n size now _) u =
      reply_if-Sound (size == 0) _ _ u (register_version-Sound (fw_encode v) v n size now i u)
  Served-Sound net i j (inject d s c t now _) u =
      fault_known-Sound net (get_device i.world.db d) d s c t now i u
  Served-Sound net i j (command d cmd name now _) u =
      cmd_known-Sound net (get_device i.world.db d) d cmd name now i u
  Served-Sound net i j (acknowledge aid now _) u = ack_alert-Sound aid now i u
  Served-Sound net i j (view _) u = views_of-Sound i.world.db.devices i u
  Served-Sound net i j (diagnosed iso ask model d now _) u = diagnose-Sound iso ask model d now i u

  -- In every state that the server reaches by its own steps and the API's requests from one with one
  -- open alert at most for each device and rule and no two alerts with one id, that is so again.
  pub Run-Sound : (net : Net) (i j : Ingest) → Run net i j → Sound i → Sound j
  Run-Sound net i j (here _) u = u
  Run-Sound net i k (next _ j _ r s) u = Served-Sound net j k s (Run-Sound net i j r u)
