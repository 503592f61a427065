-- ===== src/Db/Alerts.antt =====
-- The alerts table: open_alert, create_alert, update_alert, get_alert, alerts, open_alert_counts.
pub mod Unique
pub mod Acked
use ecu_telemetry.Prelude.{
  ℕ, ◌+◌, Bool, true, false, ◌&&◌, ◌||◌, Option, none, some, List, [], ◌∷◌, ◌==◌, if◌then◌else◌,
  length, take,
}
use ecu_telemetry.Prelude.Tables.{select, find, update, Dict, lookup, insert}
use ecu_telemetry.Python.Floats.{Floats}
use ecu_telemetry.Python.Text.{Text, ◌===◌}
use ecu_telemetry.Bus.{Time}
use ecu_telemetry.Db.Types.{AlertStatus, opened, acked, resolved, Alert, Database}

-- status IN ('open','acked')
abbrev pub is_open : AlertStatus → Bool
is_open resolved = false
is_open _ = true

-- The `status` argument of alerts.
pub data StatusFilter : Type 0 where
  only_open only_resolved only_acked all_alerts : StatusFilter

abbrev pub shows : StatusFilter → AlertStatus → Bool
shows StatusFilter.only_open s = is_open s
shows StatusFilter.only_resolved resolved = true
shows StatusFilter.only_resolved s = false
shows StatusFilter.only_acked acked = true
shows StatusFilter.only_acked s = false
shows StatusFilter.all_alerts s = true

module _ ⦃fl : Floats⦄ where
  abbrev pub is_open_for : Text → Text → Alert → Bool
  is_open_for device_id rule a =
      (a.device_id === device_id) && ((a.rule === rule) && is_open a.status)

  unfoldable pub open_alert : Database → Text → Text → Option Alert
  open_alert db device_id rule = find (is_open_for device_id rule) db.alerts

  unfoldable pub create_alert :
      Text → Text → Option Text → Option fl.Float → Text → Text → Time → Database → Database × Alert
  create_alert device_id rule metric value severity message now db =
      let a : Alert = record {
        id = db.next_alert;
        device_id = device_id;
        rule = rule;
        metric = metric;
        value = value;
        severity = severity;
        status = opened;
        message = message;
        opened_at = now;
        acked_at = none;
        resolved_at = none;
        updated_at = now;
      } in
      (record db { alerts = a ∷ db.alerts; next_alert = db.next_alert + 1 }, a)

  -- `fields` writes the named columns; updated_at is always written.
  unfoldable pub update_alert : ℕ → (Alert → Alert) → Time → Database → Database
  update_alert aid fields now db = record db {
    alerts = update (λ a. a.id == aid) (λ a. record (fields a) { updated_at = now }) db.alerts;
  }

  unfoldable pub get_alert : Database → ℕ → Option Alert
  get_alert db aid = find (λ a. a.id == aid) db.alerts

  abbrev for_device : Option Text → Text → Bool
  for_device none d = true
  for_device (some k) d = d === k

  unfoldable pub alerts : Option Text → StatusFilter → ℕ → Database → List Alert
  alerts device_id status limit db =
      take limit (select (λ a. for_device device_id a.device_id && shows status a.status) db.alerts)

  -- How many alerts of one rule of one device are open: GROUP BY of open_alert_counts, by rule too.
  unfoldable pub open_count : Text → Text → List Alert → ℕ
  open_count device_id rule as' = length (select (is_open_for device_id rule) as')
