-- ===== src/Engine/Alerts/Lifecycle.antt =====
-- One open alert at most for each device and rule, and when alerts open and close.
pub mod Keeps
pub mod Tick
use ecu_telemetry.Prelude.{
  ℕ, suc, ◌+◌, ◌≤◌, ◌<◌, ◌≡◌, refl, ◌∙◌, ap, ◌⊎◌, inl, inr, Bool, true, false, ◌&&◌, Option, none,
  some, List, [], ◌∷◌, arith, ◌==◌, leb, Bool-cases, Option-cases, if◌then◌else◌,
}
use ecu_telemetry.Prelude.Tables.{
  Dict, lookup, insert, remove, find, update, lookup-insert, lookup-remove,
}
use ecu_telemetry.Python.Floats.{Floats}
use ecu_telemetry.Python.Text.{Text, ◌===◌, ===_refl, ===_iff}
use ecu_telemetry.Bus.{Time}
use ecu_telemetry.Db.Types.{opened, Alert, Database}
use ecu_telemetry.Db.Alerts.{
  is_open_for, open_alert, create_alert, update_alert, get_alert, open_count,
}
use ecu_telemetry.Db.Alerts.Unique.{
  IsUnique, resolve_fields, create_alert-IsUnique, resolve_alert-IsUnique, resolve_alert-clears,
  resolve_alert-stays,
}
use ecu_telemetry.World.Types.{DeviceState, World, Rules}
use ecu_telemetry.Engine.Alerts.{
  Mark, state_of, set_state, emit, open_new, open_if, mark, close_found, resolve, on_offline,
  on_online, on_comm, comm_mark, resolve_if, offline,
}

module _ ⦃fl : Floats⦄ where
  -- The database part of a mark: create the alert if none is open.
  open_if-IsUnique :
      (o : Option Alert) (d : Text) (m : Mark) (now : Time) (w : World)
      → open_alert w.db d m.rule ≡ o
      → IsUnique w.db
      → IsUnique (open_if o d m now w).db
  unfolding open_if
  open_if-IsUnique none d m now w e u =
      create_alert-IsUnique w.db d m.rule m.metric m.value m.severity m.message now e u
  open_if-IsUnique (some a) d m now w e u = u

  -- Marking a rule, true or false, keeps one open alert at most for each device and rule.
  pub mark-IsUnique :
      (d : Text) (m : Mark) (cond : Bool) (now : Time) (w : World)
      → IsUnique w.db
      → IsUnique (mark d m cond now w).db
  unfolding mark set_state
  mark-IsUnique d m true now w u = open_if-IsUnique (open_alert w.db d m.rule) d m now _ refl u
  mark-IsUnique d m false now w u = u

  close_found-IsUnique :
      (o : Option Alert) (now : Time) (w : World)
      → IsUnique w.db
      → IsUnique (close_found o now w).db
  unfolding close_found emit
  close_found-IsUnique none now w u = u
  close_found-IsUnique (some a) now w u =
      elim (Option-cases (get_alert (update_alert a.id (resolve_fields now) now w.db) a.id)) [
        | inl e ↦ rw e (resolve_alert-IsUnique w.db a.id now u)
        | inr (b, e) ↦ rw e (resolve_alert-IsUnique w.db a.id now u)
      ]

  pub resolve-IsUnique :
      (d r : Text) (now : Time) (w : World) → IsUnique w.db → IsUnique (resolve d r now w).db
  unfolding resolve set_state
  resolve-IsUnique d r now w u = close_found-IsUnique (open_alert w.db d r) now _ u

  -- The database after closing what was found.
  close_found-db :
      (a : Alert) (now : Time) (w : World)
      → (close_found (some a) now w).db ≡ update_alert a.id (resolve_fields now) now w.db
  unfolding close_found emit
  close_found-db a now w =
      elim (Option-cases (get_alert (update_alert a.id (resolve_fields now) now w.db) a.id)) [
        | inl e ↦ rw e
        | inr (b, e) ↦ rw e
      ]

  close_found-clears :
      (o : Option Alert) (d r : Text) (now : Time) (w : World)
      → open_alert w.db d r ≡ o
      → IsUnique w.db
      → open_alert (close_found o now w).db d r ≡ none
  close_found-clears none d r now w e u = unfold close_found in e
  close_found-clears (some a) d r now w e u =
      ap (λ (db : Database). open_alert db d r) (close_found-db a now w)
      ∙ resolve_alert-clears w.db d r a now u e

  -- Where each device and rule has one open alert at most and no two alerts have one id, no alert of
  -- the rule is open on the device after resolve.
  pub resolve-clears :
      (d r : Text) (now : Time) (w : World)
      → IsUnique w.db
      → open_alert (resolve d r now w).db d r ≡ none
  unfolding resolve set_state
  resolve-clears d r now w u = close_found-clears (open_alert w.db d r) d r now _ refl u

  close_found-stays :
      (o : Option Alert) (d r : Text) (now : Time) (w : World)
      → open_alert w.db d r ≡ none
      → open_alert (close_found o now w).db d r ≡ none
  close_found-stays none d r now w e = unfold close_found in e
  close_found-stays (some a) d r now w e =
      ap (λ (db : Database). open_alert db d r) (close_found-db a now w)
      ∙ resolve_alert-stays w.db d r a.id now e

  -- Resolving any rule of any device opens nothing.
  pub resolve-stays :
      (d r d' r' : Text) (now : Time) (w : World)
      → open_alert w.db d' r' ≡ none
      → open_alert (resolve d r now w).db d' r' ≡ none
  unfolding resolve set_state
  resolve-stays d r d' r' now w e = close_found-stays (open_alert w.db d r) d' r' now _ e

  open_if-opens :
      (o : Option Alert) (d : Text) (m : Mark) (now : Time) (w : World)
      → open_alert w.db d m.rule ≡ o
      → (a : Alert) × (open_alert (open_if o d m now w).db d m.rule ≡ some a)
        × ((o ≡ some a)
            ⊎ (o ≡ none) × (a.opened_at ≡ now) × (a.severity ≡ m.severity) × (a.value ≡ m.value))
  unfolding open_if open_new create_alert open_alert emit
  open_if-opens none d m now w e = (
    record {
      id = w.db.next_alert;
      device_id = d;
      rule = m.rule;
      metric = m.metric;
      value = m.value;
      severity = m.severity;
      status = opened;
      message = m.message;
      opened_at = now;
      acked_at = none;
      resolved_at = none;
      updated_at = now;
    },
    rw (===_refl d, ===_refl m.rule),
    inr (refl, refl, refl, refl),
  )
  open_if-opens (some a) d m now w e = (a, e, inl refl)

  -- Marking a rule true leaves an alert of it open on the device: the one that was open already, or,
  -- if there was none, a new one with the mark's severity and value, opened now.
  pub mark-opens :
      (d : Text) (m : Mark) (now : Time) (w : World)
      → (a : Alert) × (open_alert (mark d m true now w).db d m.rule ≡ some a)
        × ((open_alert w.db d m.rule ≡ some a)
            ⊎ (open_alert w.db d m.rule ≡ none)
              × (a.opened_at ≡ now)
              × (a.severity ≡ m.severity)
              × (a.value ≡ m.value))
  unfolding mark set_state
  mark-opens d m now w = open_if-opens (open_alert w.db d m.rule) d m now _ refl

  IsUnique-if :
      (b : Bool) (x y : World) → IsUnique x.db → IsUnique y.db → IsUnique (if b then x else y).db
  IsUnique-if true x y ux uy = ux
  IsUnique-if false x y ux uy = uy

  pub on_offline-IsUnique :
      (d : Text) (now : Time) (w : World) → IsUnique w.db → IsUnique (on_offline d now w).db
  unfolding on_offline
  on_offline-IsUnique d now w u =
      IsUnique-if w.engine.rules.offline_enabled _ w (mark-IsUnique d _ true now w u) u

  resolve_if-IsUnique :
      (o : Option Alert) (d : Text) (now : Time) (w : World)
      → IsUnique w.db
      → IsUnique (resolve_if o d now w).db
  unfolding resolve_if
  resolve_if-IsUnique none d now w u = u
  resolve_if-IsUnique (some a) d now w u = resolve-IsUnique d offline now w u

  pub on_online-IsUnique :
      (d : Text) (now : Time) (w : World) → IsUnique w.db → IsUnique (on_online d now w).db
  unfolding on_online
  on_online-IsUnique d now w u = resolve_if-IsUnique (open_alert w.db d offline) d now w u

  comm_mark-IsUnique :
      (o : Option fl.Float) (d : Text) (loss : fl.Float) (now : Time) (w : World)
      → IsUnique w.db
      → IsUnique (comm_mark o d loss now w).db
  unfolding comm_mark
  comm_mark-IsUnique none d loss now w u = u
  comm_mark-IsUnique (some thr) d loss now w u = mark-IsUnique d _ (fl.lt thr loss) now w u

  pub on_comm-IsUnique :
      (d : Text) (loss : fl.Float) (now : Time) (w : World)
      → IsUnique w.db
      → IsUnique (on_comm d loss now w).db
  unfolding on_comm
  on_comm-IsUnique d loss now w u = comm_mark-IsUnique w.engine.rules.comm_loss_pct d loss now w u
