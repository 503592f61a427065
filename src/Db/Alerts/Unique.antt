-- ===== src/Db/Alerts/Unique.antt =====
-- At most one alert of a rule of a device is open: what creating, updating and resolving do to that.
use ecu_telemetry.Prelude.{
  ℕ, suc, ◌≤◌, ◌<◌, ◌≡◌, refl, inl, inr, Bool, Bool-cases, Option, none, some, List, [], ◌∷◌, arith,
  ◌==◌,
}
use ecu_telemetry.Prelude.Tables.{find, update}
use ecu_telemetry.Python.Floats.{Floats}
use ecu_telemetry.Python.Text.{Text, ===_iff}
use ecu_telemetry.Bus.{Time}
use ecu_telemetry.Db.Types.{resolved, Alert, Database}
use ecu_telemetry.Db.Alerts.{is_open_for, open_alert, create_alert, update_alert, open_count}

module _ ⦃fl : Floats⦄ where
  -- The alerts' ids count down from below the next one.
  abbrev pub IsNumbered : ℕ → List Alert → Type 0
  IsNumbered n [] = Unit {0}
  IsNumbered n (a ∷ as') = (a.id < n) × IsNumbered a.id as'

  -- One open alert at most for each device and rule, and no two alerts with one id.
  abbrev pub IsUnique : Database → Type 0
  IsUnique db = ((d r : Text) → open_count d r db.alerts ≤ 1) × IsNumbered db.next_alert db.alerts

  no_open :
      (d r : Text) (as' : List Alert) → find (is_open_for d r) as' ≡ none → open_count d r as' ≡ 0
  unfolding open_count
  no_open d r [] h = refl
  no_open d r (a ∷ as') h = ground (arith, no_open d r as')

  some_open :
      (d r : Text) (as' : List Alert) (a : Alert)
      → find (is_open_for d r) as' ≡ some a
      → 1 ≤ open_count d r as'
  unfolding open_count
  some_open d r [] a h = cc
  some_open d r (x ∷ as') a h = ground (arith, some_open d r as' a)

  find-none :
      (d r : Text) (as' : List Alert) → open_count d r as' ≡ 0 → find (is_open_for d r) as' ≡ none
  unfolding open_count
  find-none d r [] h = refl
  find-none d r (a ∷ as') h = ground (arith, find-none d r as')

  -- Creating an alert where none of its rule is open keeps the invariant.
  pub create_alert-IsUnique :
      (db : Database) (d r : Text) (m : Option Text) (v : Option fl.Float) (s msg : Text)
      (now : Time)
      → open_alert db d r ≡ none
      → IsUnique db
      → IsUnique (create_alert d r m v s msg now db).0
  unfolding create_alert open_alert open_count
  create_alert-IsUnique db d r m v s msg now h (u, ids) = (
    λ d' r'. ground (arith, no_open d r db.alerts h, u d' r', ===_iff d d', ===_iff r r'),
    (omega arith, ids),
  )

  -- An update whose fields leave the id leaves every id.
  pub update-IsNumbered :
      (f : Alert → Alert) (p : Alert → Bool) (n : ℕ) (as' : List Alert)
      → ((a : Alert) → (f a).id ≡ a.id)
      → IsNumbered n as'
      → IsNumbered n (update p f as')
  update-IsNumbered f p n [] h ids = tt
  update-IsNumbered f p n (a ∷ as') h (small, ids) = elim (Bool-cases (p a)) [
    | inl e ↦ rw (e, h a) (small, update-IsNumbered f p a.id as' h ids)
    | inr e ↦ rw e (small, update-IsNumbered f p a.id as' h ids)
  ]

  -- The fields that update_alert may write for a resolution.
  abbrev pub resolve_fields : Time → Alert → Alert
  resolve_fields now a = record a { status = resolved; resolved_at = some now }

  update-count :
      (d r : Text) (aid : ℕ) (now : Time) (as' : List Alert)
      → open_count d r
          (update (λ a. a.id == aid) (λ a. record (resolve_fields now a) { updated_at = now }) as')
        ≤ open_count d r as'
  unfolding open_count
  update-count d r aid now [] = omega arith
  update-count d r aid now (a ∷ as') = ground (arith, update-count d r aid now as')

  -- Resolving the alert that was found leaves one fewer open.
  update-found :
      (d r : Text) (a : Alert) (now : Time) (as' : List Alert)
      → find (is_open_for d r) as' ≡ some a
      → suc (
          open_count d r (
            update
              (λ b. b.id == a.id)
              (λ b. record (resolve_fields now b) { updated_at = now })
              as'))
        ≤ open_count d r as'
  unfolding open_count
  update-found d r a now [] h = cc
  update-found d r a now (x ∷ as') h =
      ground (arith, update-found d r a now as', update-count d r a.id now as')

  pub resolve_alert-IsUnique :
      (db : Database) (aid : ℕ) (now : Time)
      → IsUnique db
      → IsUnique (update_alert aid (resolve_fields now) now db)
  unfolding update_alert
  resolve_alert-IsUnique db aid now (u, ids) = (
    λ d r. omega (arith, update-count d r aid now db.alerts, u d r),
    update-IsNumbered (λ a. record (resolve_fields now a) { updated_at = now }) (λ a. a.id == aid)
        db.next_alert db.alerts (λ a. refl) ids,
  )

  pub resolve_alert-clears :
      (db : Database) (d r : Text) (a : Alert) (now : Time)
      → IsUnique db
      → open_alert db d r ≡ some a
      → open_alert (update_alert a.id (resolve_fields now) now db) d r ≡ none
  unfolding update_alert open_alert
  resolve_alert-clears db d r a now (u, ids) h =
      find-none d r _ (omega (arith, update-found d r a now db.alerts h, u d r))

  -- Resolving opens nothing.
  pub resolve_alert-stays :
      (db : Database) (d r : Text) (aid : ℕ) (now : Time)
      → open_alert db d r ≡ none
      → open_alert (update_alert aid (resolve_fields now) now db) d r ≡ none
  unfolding update_alert open_alert
  resolve_alert-stays db d r aid now h =
      find-none d r _ (omega (arith, update-count d r aid now db.alerts, no_open d r db.alerts h))
