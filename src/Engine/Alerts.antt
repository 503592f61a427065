-- ===== src/Engine/Alerts.antt =====
-- The life of an alert: _st, _mark, _emit, resolve, tick, on_offline, on_online and on_comm.
pub mod Lifecycle
use ecu_telemetry.Prelude.{
  ℕ, ◌+◌, Bool, true, false, ◌&&◌, Option, none, some, List, [], ◌∷◌, ◌++◌, leb, if◌then◌else◌,
}
use ecu_telemetry.Prelude.Tables.{Dict, lookup, insert, remove}
use ecu_telemetry.Python.Floats.{Floats}
use ecu_telemetry.Python.Text.{Text, text, ◌===◌}
use ecu_telemetry.Bus.{Time, publish}
use ecu_telemetry.Db.Types.{Alert, Database}
use ecu_telemetry.Db.Alerts.{
  StatusFilter, open_alert, create_alert, update_alert, get_alert, alerts,
}
use ecu_telemetry.Db.Alerts.Unique.{resolve_fields}
use ecu_telemetry.World.Types.{DeviceState, Engine, Event, World, Rules}

module _ ⦃fl : Floats⦄ where
  open fl use {Float}

  abbrev pub fresh_state : DeviceState
  fresh_state = record { rate_hist = []; ewma = []; active = [] }

  abbrev or_fresh : Option DeviceState → DeviceState
  or_fresh none = fresh_state
  or_fresh (some st) = st

  -- _st: the device's state, made on first use.
  unfoldable pub state_of : Text → World → DeviceState
  state_of device_id w = or_fresh (lookup device_id w.engine.devices)

  unfoldable pub set_state : Text → DeviceState → World → World
  set_state device_id st w = record w {
    engine = record w.engine { devices = insert device_id st w.engine.devices };
  }

  -- _emit; get_alert may have found nothing.
  unfoldable pub emit : Option Alert → Text → World → World
  emit none action w = w
  emit (some a) action w = record w { bus = publish (Event.alert action a) w.bus }

  -- What _mark carries to the alert.
  pub record Mark : Type 0 where
    pub rule : Text
    pub metric : Option Text
    pub value : Option Float
    pub severity : Text
    pub message : Text

  open_new : Text → Mark → Time → World → World
  unfolding emit
  open_new device_id m now w =
      let (db', a) = create_alert device_id m.rule m.metric m.value m.severity m.message now w.db in
      emit (some a) (text "opened") (record w { db = db' })

  -- `if not self.db.open_alert(...)`
  open_if : Option Alert → Text → Mark → Time → World → World
  unfolding open_new
  open_if none device_id m now w = open_new device_id m now w
  open_if (some a) device_id m now w = w

  unfoldable pub mark : Text → Mark → Bool → Time → World → World
  unfolding open_if
  mark device_id m cond now w =
      let st = state_of device_id w in
      let st' : DeviceState =
        if cond then record st { active = insert m.rule now st.active } else st in
      let w' = set_state device_id st' w in
      if cond then open_if (open_alert w.db device_id m.rule) device_id m now w' else w'

  close_found : Option Alert → Time → World → World
  unfolding emit
  close_found none now w = w
  close_found (some a) now w =
      let db' = update_alert a.id (resolve_fields now) now w.db in
      emit (get_alert db' a.id) (text "resolved") (record w { db = db' })

  unfoldable pub resolve : Text → Text → Time → World → World
  unfolding close_found
  resolve device_id rule now w =
      let st = state_of device_id w in
      close_found (open_alert w.db device_id rule) now
        (set_state device_id (record st { active = remove rule st.active }) w)

  abbrev pub offline : Text
  offline = text "offline"

  -- The inner loop of tick, over a copy of the active rules.
  tick_rules : Text → List (Text × Time) → Time → World → World
  tick_rules device_id [] now w = w
  tick_rules device_id ((rule, last_true) ∷ rest) now w =
      let hold = w.engine.rules.resolve_after in
      let w' =
        if rule === offline
        then w
        else if leb (last_true + hold) now
        then resolve device_id rule now w
        else w in
      tick_rules device_id rest now w'

  tick_devices : List (Text × DeviceState) → Time → World → World
  unfolding tick_rules
  tick_devices [] now w = w
  tick_devices ((device_id, st) ∷ rest) now w =
      tick_devices rest now (tick_rules device_id st.active now w)

  abbrev is_active : Option DeviceState → Text → Bool
  is_active none rule = false
  is_active (some st) rule = elim (lookup rule st.active) [ none ↦ false | some t ↦ true ]

  -- `a["updated_at"] or a["opened_at"]`: create_alert and update_alert always write updated_at.
  sweep : List Alert → Time → World → World
  sweep [] now w = w
  sweep (a ∷ rest) now w =
      let hold = w.engine.rules.resolve_after in
      let w' =
        if a.rule === offline
        then w
        else if is_active (lookup a.device_id w.engine.devices) a.rule
        then w
        else if leb (a.updated_at + hold) now
        then resolve a.device_id a.rule now w
        else w in
      sweep rest now w'

  unfoldable pub tick : Time → World → World
  unfolding tick_devices sweep
  tick now w =
      let w' = tick_devices w.engine.devices now w in
      sweep (alerts none StatusFilter.only_open 1000 w'.db) now w'

  unfoldable pub on_offline : Text → Time → World → World
  on_offline device_id now w =
      let r = w.engine.rules in
      if r.offline_enabled
      then mark device_id
          (record {
            rule = offline;
            metric = none;
            value = none;
            severity = r.offline_severity;
            message = text "no HEARTBEAT/TELEMETRY for 15 s";
          })
          true now w
      else w

  resolve_if : Option Alert → Text → Time → World → World
  resolve_if none device_id now w = w
  resolve_if (some a) device_id now w = resolve device_id offline now w

  unfoldable pub on_online : Text → Time → World → World
  unfolding resolve_if
  on_online device_id now w = resolve_if (open_alert w.db device_id offline) device_id now w

  comm_mark : Option Float → Text → Float → Time → World → World
  comm_mark none device_id loss now w = w
  comm_mark (some thr) device_id loss now w =
      mark device_id
        (record {
          rule = text "packet_loss";
          metric = some (text "loss_pct");
          value = some loss;
          severity = w.engine.rules.comm_severity;
          message =
              text "packet loss "
              ++ (fl.format loss 1 ++ (text "% > " ++ (fl.str thr ++ text "%")));
        })
        (fl.lt thr loss) now w

  unfoldable pub on_comm : Text → Float → Time → World → World
  unfolding comm_mark
  on_comm device_id loss now w = comm_mark w.engine.rules.comm_loss_pct device_id loss now w
