-- ===== src/Api/Control.antt =====
-- fault_inject, device_cmd and ack_alert of backend/app/api.py.
use ecu_telemetry.Prelude.{ℕ, Bool, true, false, Option, none, some, List, ◌++◌}
use ecu_telemetry.Python.Result.{Result, ok, err}
use ecu_telemetry.Python.Floats.{Floats}
use ecu_telemetry.Python.Text.{Text, text}
use ecu_telemetry.Python.Decimal.{str_int}
use ecu_telemetry.Bus.{Time}
use ecu_telemetry.Protocol.Flags.{names_to_flags}
use ecu_telemetry.Db.Types.{AlertStatus, opened, Device, Alert}
use ecu_telemetry.Db.Devices.{get_device, fault_injection_add}
use ecu_telemetry.Db.Alerts.{get_alert, update_alert}
use ecu_telemetry.Db.Alerts.Acked.{ack_fields}
use ecu_telemetry.World.Types.{Event}
use ecu_telemetry.Ingest.State.{Ingest, Net, with_db, announce}
use ecu_telemetry.Ingest.Push.{Did, push_fault, push_cmd}
use ecu_telemetry.Ingest.Dispatch.{log_line}
use ecu_telemetry.Python.Sets.{list_repr}
use ecu_telemetry.Protocol.Flags.{flags_to_names}
use ecu_telemetry.Api.{answered, refused, raised, Reply}

module _ ⦃fl : Floats⦄ where
  -- A push without a connection is logged, and is status 409.
  unfoldable pub not_connected : Did Bool → Text → ℕ → Text → Time → Reply Bool
  unfolding log_line
  not_connected (i, err e) device_id level message now = (i, raised e)
  not_connected (i, ok true) device_id level message now =
      (log_line device_id level (message ++ text " pushed") none now i, answered true)
  not_connected (i, ok false) device_id level message now =
      (log_line device_id level (message ++ text " NOT connected") none now i, refused 409)

  abbrev fault_text : ℕ → ℕ → ℕ → Text
  fault_text set clear duration =
      text "FAULT_INJECT set="
      ++ (list_repr (flags_to_names set)
          ++ (text " clear="
              ++ (list_repr (flags_to_names clear)
                  ++ (text " dur=" ++ (str_int duration ++ text "ms")))))

  unfoldable pub fault_read : Net → Result ℕ → Result ℕ → Text → ℕ → Time → Ingest → Reply Bool
  unfolding not_connected with_db push_fault
  fault_read net (ok set) (ok clear) device_id duration now i =
      let i1 = with_db (λ db. (fault_injection_add device_id set clear duration now db).0) i in
      not_connected (push_fault net device_id set clear duration now i1) device_id 2
        (fault_text set clear duration) now
  fault_read net set clear device_id duration now i = (i, refused 422)

  unfoldable pub fault_known :
      Net → Option Device → Text → List Text → List Text → ℕ → Time → Ingest → Reply Bool
  unfolding fault_read
  fault_known net none device_id set clear duration now i = (i, refused 404)
  fault_known net (some d) device_id set clear duration now i =
      fault_read net (names_to_flags set) (names_to_flags clear) device_id duration now i

  unfoldable pub fault_inject : Net → Text → List Text → List Text → ℕ → Time → Ingest → Reply Bool
  unfolding fault_known
  fault_inject net device_id set clear duration now i =
      fault_known net (get_device i.world.db device_id) device_id set clear duration now i

  unfoldable pub cmd_known : Net → Option Device → Text → ℕ → Text → Time → Ingest → Reply Bool
  unfolding not_connected push_cmd
  cmd_known net none device_id cmd name now i = (i, refused 404)
  cmd_known net (some d) device_id cmd name now i =
      not_connected (push_cmd net device_id cmd now i) device_id 1 (text "CMD " ++ name) now

  unfoldable pub device_cmd : Net → Text → ℕ → Text → Time → Ingest → Reply Bool
  unfolding cmd_known
  device_cmd net device_id cmd name now i =
      cmd_known net (get_device i.world.db device_id) device_id cmd name now i

  -- Only an alert that is open becomes acked.
  unfoldable pub ack_status : AlertStatus → ℕ → Time → Ingest → Ingest
  unfolding with_db
  ack_status opened aid now i = with_db (update_alert aid (ack_fields now) now) i
  ack_status _ aid now i = i

  unfoldable pub ack_found : Option Alert → ℕ → Time → Ingest → Ingest
  unfolding ack_status
  ack_found none aid now i = i
  ack_found (some a) aid now i = ack_status a.status aid now i

  unfoldable pub told : Option Alert → Ingest → Reply Alert
  unfolding announce
  told none i = (i, refused 404)
  told (some a) i = (announce (Event.alert (text "acked") a) i, answered a)

  unfoldable pub ack_alert : ℕ → Time → Ingest → Reply Alert
  unfolding ack_found told
  ack_alert aid now i =
      let i' = ack_found (get_alert i.world.db aid) aid now i in told (get_alert i'.world.db aid) i'
