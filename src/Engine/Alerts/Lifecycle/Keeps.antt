-- ===== src/Engine/Alerts/Lifecycle/Keeps.antt =====
-- What stays open while rules are marked true: the marks of backend/app/anomaly.py close nothing.
use ecu_telemetry.Prelude.{◌≡◌, refl, Bool, true, false, Option, none, some, if◌then◌else◌, arith}
use ecu_telemetry.Python.Floats.{Floats}
use ecu_telemetry.Python.Text.{Text, text}
use ecu_telemetry.Bus.{Time}
use ecu_telemetry.Db.Types.{Alert, Database}
use ecu_telemetry.Db.Alerts.{open_alert, create_alert}
use ecu_telemetry.World.Types.{World}
use ecu_telemetry.Engine.Alerts.{
  Mark, set_state, emit, open_new, open_if, mark, on_comm, on_offline, comm_mark, offline,
}
use ecu_telemetry.Engine.Alerts.Lifecycle.{mark-opens}

module _ ⦃fl : Floats⦄ where
  -- An alert of the rule is open on the device.
  abbrev pub IsOpen : Text → Text → Database → Type 0
  IsOpen d r db = (a : Alert) × (open_alert db d r ≡ some a)

  IsOpen-cons :
      (c : Bool) (x a : Alert) (o : Option Alert)
      → o ≡ some a
      → (b : Alert) × ((if c then some x else o) ≡ some b)
  IsOpen-cons true x a o e = (x, refl)
  IsOpen-cons false x a o e = (a, e)

  open_if-keeps :
      (o : Option Alert) (j d r : Text) (m : Mark) (now : Time) (w : World)
      → IsOpen d r w.db
      → IsOpen d r (open_if o j m now w).db
  unfolding open_if open_new create_alert open_alert emit
  open_if-keeps none j d r m now w (a, e) = IsOpen-cons _ _ a _ e
  open_if-keeps (some b) j d r m now w (a, e) = (a, e)

  -- Marking any rule of any device closes nothing.
  pub mark-keeps :
      (j d r : Text) (m : Mark) (cond : Bool) (now : Time) (w : World)
      → IsOpen d r w.db
      → IsOpen d r (mark j m cond now w).db
  unfolding mark set_state
  mark-keeps j d r m true now w h = open_if-keeps (open_alert w.db j m.rule) j d r m now _ h
  mark-keeps j d r m false now w h = h

  comm_mark-keeps :
      (o : Option fl.Float) (j d r : Text) (loss : fl.Float) (now : Time) (w : World)
      → IsOpen d r w.db
      → IsOpen d r (comm_mark o j loss now w).db
  unfolding comm_mark
  comm_mark-keeps none j d r loss now w h = h
  comm_mark-keeps (some thr) j d r loss now w h = mark-keeps j d r _ (fl.lt thr loss) now w h

  pub on_comm-keeps :
      (j d r : Text) (loss : fl.Float) (now : Time) (w : World)
      → IsOpen d r w.db
      → IsOpen d r (on_comm j loss now w).db
  unfolding on_comm
  on_comm-keeps j d r loss now w h = comm_mark-keeps w.engine.rules.comm_loss_pct j d r loss now w h

  IsOpen-if :
      (b : Bool) (d r : Text) (x y : World)
      → IsOpen d r x.db
      → IsOpen d r y.db
      → IsOpen d r (if b then x else y).db
  IsOpen-if true d r x y p q = p
  IsOpen-if false d r x y p q = q

  -- Reporting any device offline closes nothing.
  pub on_offline-keeps :
      (j d r : Text) (now : Time) (w : World) → IsOpen d r w.db → IsOpen d r (on_offline j now w).db
  unfolding on_offline
  on_offline-keeps j d r now w h =
      IsOpen-if w.engine.rules.offline_enabled d r _ w (mark-keeps j d r _ true now w h) h

  IsOpen-then :
      (b : Bool) (d r : Text) (x y : World)
      → b ≡ true
      → IsOpen d r x.db
      → IsOpen d r (if b then x else y).db
  IsOpen-then true d r x y e p = p
  IsOpen-then false d r x y e p = ground arith

  -- Reporting a device offline opens an alert of it where the rules enable that.
  pub on_offline-opens :
      (d : Text) (now : Time) (w : World)
      → w.engine.rules.offline_enabled ≡ true
      → IsOpen d offline (on_offline d now w).db
  unfolding on_offline
  on_offline-opens d now w e =
      let m : Mark = record {
        rule = offline;
        metric = none;
        value = none;
        severity = w.engine.rules.offline_severity;
        message = text "no HEARTBEAT/TELEMETRY for 15 s";
      } in
      let (a, o, _) = mark-opens d m now w in
      IsOpen-then w.engine.rules.offline_enabled d offline (mark d m true now w) w e (a, o)

  -- No report of a device changes the rules.
  pub on_offline-rules :
      (d : Text) (now : Time) (w : World) → (on_offline d now w).engine.rules ≡ w.engine.rules
  unfolding on_offline mark open_if open_new set_state emit
  on_offline-rules d now w = ground arith

  -- Reporting a device offline writes no row of the devices table.
  pub on_offline-devices :
      (d : Text) (now : Time) (w : World) → (on_offline d now w).db.devices ≡ w.db.devices
  unfolding on_offline mark open_if open_new create_alert set_state emit
  on_offline-devices d now w = ground arith
