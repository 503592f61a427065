-- ===== src/Examples/Answers.antt =====
-- Examples of the diagnosis, the API and the follow-up of a HELLO.
use mathlib.Core.List.{Permᴰ}
use ecu_telemetry.Prelude.{
  ℕ, ◌≡◌, refl, Bool, not, ◌&&◌, true, false, none, some, List, [], ◌∷◌, ◌++◌, arith, if◌then◌else◌,
}
use ecu_telemetry.Prelude.Tables.{lookup}
use ecu_telemetry.Python.Struct.{Bytes}
use ecu_telemetry.Python.Text.{Text, text, ◌===◌}
use ecu_telemetry.Python.Sets.{has, fresh, distinct, IsDistinct}
use ecu_telemetry.Bus.{Time}
use ecu_telemetry.Protocol.Flags.{flags_to_names}
use ecu_telemetry.Protocol.Payload.Types.{Hello}
use ecu_telemetry.Protocol.Text.{FitsText}
use ecu_telemetry.Protocol.Frame.RoundTrip.{decode-encode}
use ecu_telemetry.Db.Types.{opened, Alert, DeviceConfig, FwJob}
use ecu_telemetry.Db.Alerts.{open_count, get_alert}
use ecu_telemetry.Db.Devices.{get_device}
use ecu_telemetry.Protocol.Payload.Codec.{payload_type}
use ecu_telemetry.Db.Config.{current_config, latest, config_row}
use ecu_telemetry.Db.Firmware.{add_status, fw_job_latest, in_progress}
use ecu_telemetry.Ingest.Stats.{new_stats}
use ecu_telemetry.Ingest.State.{Ingest, st}
use ecu_telemetry.Ingest.State.Keeps.{Sound}
use ecu_telemetry.Ingest.Push.{config_payload}
use ecu_telemetry.Ingest.Dispatch.{after_hello}
use ecu_telemetry.Ingest.Dispatch.Followup.{IsTaken, after_hello-config, after_hello-completes}
use ecu_telemetry.Api.Control.{ack_alert}
use ecu_telemetry.Api.Steps.Run.{Served, Run, Run-Sound}
use ecu_telemetry.Api.Steps.Acknowledge.{ack_answer, ack_alert-answer, ack_alert-open_count}
use ecu_telemetry.Diagnostics.Context.{Context}
use ecu_telemetry.Diagnostics.Blocks.{rules_of, faults_in, flagged}
use ecu_telemetry.Diagnostics.Heuristic.{found, explained, nominal, heuristic_diagnosis}
use ecu_telemetry.Diagnostics.Explained.{is_known}
use ecu_telemetry.Diagnostics.Answer.{
  heuristic_diagnosis-known, heuristic_diagnosis-causes, heuristic_diagnosis-actions, shares,
  IsRanked, heuristic_diagnosis-flags,
}
use ecu_telemetry.Examples.{two, device, empty, server, net, world}

abbrev clock : Time → Text
clock t = text "12:00"

-- A device that is too hot, by its own flag.
abbrev overheated : Context
overheated = record {
  device_id = device;
  device = none;
  config = none;
  fw_job = none;
  active_faults = flags_to_names 1;
  stats = record { n = 0; metrics = [] };
  comm = new_stats;
  open_alerts = [];
  recently_resolved = [];
  logs = [];
  injections = [];
}

heuristic_diagnosis-known_example : heuristic_diagnosis clock overheated (text "now") ≡ (
    if is_known overheated
    then explained overheated (found clock overheated) (text "now")
    else nominal overheated (text "now"))
heuristic_diagnosis-known_example = heuristic_diagnosis-known clock overheated (text "now")

overheated-known : is_known overheated ≡ true
unfolding is_known rules_of faults_in flagged distinct fresh has ◌===◌ flags_to_names
overheated-known = refl

lt-asym : (x y : Bool) → (not x && y) ≡ true → (not y && x) ≡ false
lt-asym x y h = ground (arith, h)

heuristic_diagnosis-causes_example :
    Permᴰ
      (heuristic_diagnosis clock overheated (text "now")).probable_causes
      (shares (found clock overheated).causes)
    × IsRanked (heuristic_diagnosis clock overheated (text "now")).probable_causes
heuristic_diagnosis-causes_example =
    heuristic_diagnosis-causes clock overheated (text "now") overheated-known lt-asym

heuristic_diagnosis-actions_example :
    (has
        (text "Replace sensor or harness")
        (heuristic_diagnosis clock overheated (text "now")).recommended_actions
      ≡ has (text "Replace sensor or harness") (found clock overheated).actions)
    × IsDistinct (heuristic_diagnosis clock overheated (text "now")).recommended_actions
heuristic_diagnosis-actions_example =
    heuristic_diagnosis-actions clock overheated (text "now") (text "Replace sensor or harness")
      overheated-known

heuristic_diagnosis-flags_example :
    heuristic_diagnosis clock overheated (text "now")
    ≡ explained overheated (found clock overheated) (text "now")
heuristic_diagnosis-flags_example =
    heuristic_diagnosis-flags clock overheated (text "now") 1 (omega arith) (omega arith) refl

-- An open alert of the device, and one configuration and one firmware job of it.
abbrev alert : Alert
alert = record {
  id = 0;
  device_id = device;
  rule = text "temp_high";
  metric = none;
  value = none;
  severity = text "warn";
  status = opened;
  message = [];
  opened_at = 5;
  acked_at = none;
  resolved_at = none;
  updated_at = 5;
}

abbrev alarmed : Ingest
alarmed = record server { world = record world { db = record empty { alerts = alert ∷ [] } } }

alarmed-Sound : Sound alarmed
unfolding open_count
alarmed-Sound = (λ d r. ground arith, (omega arith, tt))

ack_alert-answer_example : (ack_alert 0 9 alarmed).1 ≡ ack_answer 9 (get_alert alarmed.world.db 0)
ack_alert-answer_example = ack_alert-answer 0 9 alarmed

ack_alert-open_count_example :
    open_count device (text "temp_high") (ack_alert 0 9 alarmed).0.world.db.alerts
    ≡ open_count device (text "temp_high") alarmed.world.db.alerts
ack_alert-open_count_example =
    ack_alert-open_count 0 9 alarmed device (text "temp_high") alarmed-Sound

Run-Sound_example : Sound (ack_alert 0 9 alarmed).0
Run-Sound_example =
    Run-Sound net alarmed (ack_alert 0 9 alarmed).0
      (Run.next alarmed alarmed (ack_alert 0 9 alarmed).0 (Run.here alarmed)
        (Served.acknowledge 0 9 alarmed))
      alarmed-Sound

abbrev config : DeviceConfig
config = config_row device 3 10 1 true true true 2

abbrev job : FwJob
job = record {
  id = 4;
  device_id = device;
  target_version = text "1.2.3";
  from_version = none;
  status = text "sent";
  created_at = 1;
  updated_at = 1;
  history = [];
}

abbrev hello : Hello
hello = record {
  fw_string = text "1.2.3";
  hw_model = text "M";
  telemetry_hz = 10;
  config_version = 2;
}

abbrev connected : Ingest
connected = record server {
  writers = (device, 7) ∷ [];
  world = record world { db = record empty { configs = config ∷ []; fw_jobs = job ∷ [] } };
}

device_fits : FitsText 12 device
device_fits = (
  (((λ e. omega (arith, e)), omega arith), (((λ e. omega (arith, e)), omega arith), tt)),
  omega arith,
)

-- The connection takes the frame of the configuration.
taken : IsTaken net device (config_payload config) 9 connected
unfolding payload_type st get_device lookup ◌===◌
taken =
    let (b, e, _, _, _, _) =
      decode-encode 0 device 1 0 0 (config_payload config) (omega arith) device_fits (
        omega arith,
        omega arith,
        omega arith,
        (1, refl, refl),
        (1, refl, refl),
        (1, refl, refl),
      ) in
    record { conn = 7; frame = b; named = refl; is_open = refl; encoded = e; accepted = refl }

after_hello-config_example :
    (new : List (ℕ × Bytes)) × ((after_hello net device hello 9 connected).0.sent
      ≡ new ++ ((taken.conn, taken.frame) ∷ []))
unfolding current_config latest ◌===◌
after_hello-config_example =
    after_hello-config net device hello config 9 connected taken refl (omega arith)

after_hello-completes_example :
    fw_job_latest
      (after_hello net device (record hello { config_version = 3 }) 9 connected).0.world.db
      device
    ≡ some (add_status (text "complete") 9 job)
unfolding fw_job_latest in_progress current_config latest ◌===◌
after_hello-completes_example =
    after_hello-completes net device (record hello { config_version = 3 }) job 9 connected refl refl
      refl refl
