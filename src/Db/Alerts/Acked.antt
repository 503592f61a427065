-- ===== src/Db/Alerts/Acked.antt =====
-- Acknowledging an alert leaves what is open: the update of ack_alert in backend/app/api.py.
use ecu_telemetry.Prelude.{
  ℕ, ◌≤◌, ◌≡◌, refl, ◌∙◌, ap, inl, inr, Bool, true, false, Bool-cases, Option, some, List, [], ◌∷◌,
  arith, ◌==◌, if◌then◌else◌,
}
use ecu_telemetry.Prelude.Tables.{find, update}
use ecu_telemetry.Python.Floats.{Floats}
use ecu_telemetry.Python.Text.{Text}
use ecu_telemetry.Bus.{Time}
use ecu_telemetry.Db.Types.{opened, acked, Alert, Database}
use ecu_telemetry.Db.Alerts.{is_open, update_alert, get_alert, open_count}
use ecu_telemetry.Db.Alerts.Unique.{IsUnique, IsNumbered, update-IsNumbered}

module _ ⦃fl : Floats⦄ where
  abbrev pub ack_fields : Time → Alert → Alert
  ack_fields now a = record a { status = acked; acked_at = some now }

  abbrev pub written : Time → Alert → Alert
  written now a = record (ack_fields now a) { updated_at = now }

  -- An id at or above the newest one changes nothing.
  acked-absent :
      (aid : ℕ) (now : Time) (n : ℕ) (as' : List Alert)
      → IsNumbered n as'
      → n ≤ aid
      → update (λ a. a.id == aid) (written now) as' ≡ as'
  acked-absent aid now n [] ids h = refl
  acked-absent aid now n (a ∷ as') (small, ids) h =
      let other : (a.id == aid) ≡ false = ground arith in
      rw (other, acked-absent aid now a.id as' ids (omega arith)) refl

  pub first :
      (x a : Alert) (o : Option Alert) (c : Bool)
      → c ≡ true
      → (if c then some x else o) ≡ some a
      → x ≡ a
  first x a o true e h = ground arith
  first x a o false e h = ground arith

  pub next :
      (x a : Alert) (o : Option Alert) (c : Bool)
      → c ≡ false
      → (if c then some x else o) ≡ some a
      → o ≡ some a
  next x a o true e h = ground arith
  next x a o false e h = h

  -- An open alert is still open once it is acked.
  still_open :
      (d r : Text) (now : Time) (x : Alert) (as' : List Alert)
      → x.status ≡ opened
      → open_count d r (written now x ∷ as') ≡ open_count d r (x ∷ as')
  unfolding open_count
  still_open d r now x as' s =
      let open_now : is_open x.status ≡ true = ap is_open s in ground (arith, open_now)

  pub acked-count :
      (d r : Text) (aid : ℕ) (now : Time) (n : ℕ) (as' : List Alert) (a : Alert)
      → IsNumbered n as'
      → find (λ b. b.id == aid) as' ≡ some a
      → a.status ≡ opened
      → open_count d r (update (λ b. b.id == aid) (written now) as') ≡ open_count d r as'
  unfolding open_count
  acked-count d r aid now n [] a ids h s = refl
  acked-count d r aid now n (x ∷ as') a (small, ids) h s = elim (Bool-cases (x.id == aid)) [
    | inl e ↦
        let last : update (λ b. b.id == aid) (written now) as' ≡ as' =
          acked-absent aid now x.id as' ids (ground (arith, e)) in
        let status = ap (λ (z : Alert). z.status) (first x a _ (x.id == aid) e h) ∙ s in
        rw (e, last) (still_open d r now x as' status)
    | inr e ↦
        rw e
          (ground (arith, acked-count d r aid now x.id as' a ids (next x a _ (x.id == aid) e h) s))
  ]

  -- Acknowledging an open alert keeps one open alert at most for each device and rule, and the ids.
  pub ack-IsUnique :
      (db : Database) (aid : ℕ) (now : Time) (a : Alert)
      → get_alert db aid ≡ some a
      → a.status ≡ opened
      → IsUnique db
      → IsUnique (update_alert aid (ack_fields now) now db)
  unfolding get_alert update_alert
  ack-IsUnique db aid now a h s (u, ids) = (
    λ d r. omega (arith, acked-count d r aid now db.next_alert db.alerts a ids h s, u d r),
    update-IsNumbered (written now) (λ b. b.id == aid) db.next_alert db.alerts (λ b. refl) ids,
  )
