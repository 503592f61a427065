-- ===== src/Api/Steps/Acknowledge.antt =====
-- ack_alert of backend/app/api.py: its answers, and what is open after it.
use ecu_telemetry.Prelude.{
  ℕ, ◌≡◌, refl, ◌∙◌, ap, inl, inr, Bool-cases, Option, none, some, List, [], ◌∷◌, arith, ◌==◌,
}
use ecu_telemetry.Prelude.Tables.{find, update}
use ecu_telemetry.Python.Floats.{Floats}
use ecu_telemetry.Python.Text.{Text}
use ecu_telemetry.Bus.{Time}
use ecu_telemetry.Db.Types.{AlertStatus, opened, acked, resolved, Alert, Database}
use ecu_telemetry.Db.Alerts.{get_alert, update_alert, open_count}
use ecu_telemetry.Db.Alerts.Acked.{written, acked-count, first, next}
use ecu_telemetry.Ingest.State.{Ingest, with_db, announce}
use ecu_telemetry.Ingest.State.Keeps.{Sound}
use ecu_telemetry.Api.{Answer, answered, refused}
use ecu_telemetry.Api.Control.{ack_status, ack_found, told, ack_alert}

module _ ⦃fl : Floats⦄ where
  -- An alert as an acknowledgement leaves it.
  unfoldable pub acked_as : Time → Alert → Alert
  acked_as now a = elim a.status [ opened ↦ written now a | _ ↦ a ]

  unfoldable pub ack_answer : Time → Option Alert → Answer Alert
  unfolding acked_as
  ack_answer now none = refused 404
  ack_answer now (some a) = answered (acked_as now a)

  find-update :
      (aid : ℕ) (now : Time) (as' : List Alert) (a : Alert)
      → find (λ b. b.id == aid) as' ≡ some a
      → find (λ b. b.id == aid) (update (λ b. b.id == aid) (written now) as') ≡ some (written now a)
  find-update aid now [] a h = ground arith
  find-update aid now (x ∷ as') a h = elim (Bool-cases (x.id == aid)) [
    | inl e ↦ rw (e, e) (ap (λ (z : Alert). some (written now z)) (first x a _ (x.id == aid) e h))
    | inr e ↦ rw (e, e) (find-update aid now as' a (next x a _ (x.id == aid) e h))
  ]

  -- The alert that is found again after the update.
  ack_status-get :
      (s : AlertStatus) (a : Alert) (aid : ℕ) (now : Time) (i : Ingest)
      → a.status ≡ s
      → get_alert i.world.db aid ≡ some a
      → get_alert (ack_status s aid now i).world.db aid
        ≡ some (elim s [ opened ↦ written now a | _ ↦ a ])
  unfolding ack_status with_db get_alert update_alert
  ack_status-get opened a aid now i e h = find-update aid now i.world.db.alerts a h
  ack_status-get acked a aid now i e h = h
  ack_status-get resolved a aid now i e h = h

  told-answer : (o : Option Alert) (i : Ingest) (b : Alert) → o ≡ some b → (told o i).1 ≡ answered b
  unfolding told
  told-answer none i b e = ground arith
  told-answer (some a) i b e = ap answered (ground arith)

  told_found :
      (o : Option Alert) (aid : ℕ) (now : Time) (i : Ingest)
      → get_alert i.world.db aid ≡ o
      → (told (get_alert (ack_found o aid now i).world.db aid) (ack_found o aid now i)).1
        ≡ ack_answer now o
  unfolding ack_found ack_answer acked_as told
  told_found none aid now i h = rw h refl
  told_found (some a) aid now i h =
      told-answer _ (ack_status a.status aid now i) _ (ack_status-get a.status a aid now i refl h)

  -- ack_alert answers 404 for an unknown id, with the alert as it is if it is acked or resolved, and
  -- otherwise with the alert acked now.
  pub ack_alert-answer :
      (aid : ℕ) (now : Time) (i : Ingest)
      → (ack_alert aid now i).1 ≡ ack_answer now (get_alert i.world.db aid)
  unfolding ack_alert
  ack_alert-answer aid now i = told_found (get_alert i.world.db aid) aid now i refl

  told-db : (o : Option Alert) (i : Ingest) → (told o i).0.world.db ≡ i.world.db
  unfolding told announce
  told-db none i = refl
  told-db (some a) i = refl

  ack_status-count :
      (s : AlertStatus) (a : Alert) (aid : ℕ) (now : Time) (i : Ingest) (d r : Text)
      → a.status ≡ s
      → get_alert i.world.db aid ≡ some a
      → Sound i
      → open_count d r (ack_status s aid now i).world.db.alerts ≡ open_count d r i.world.db.alerts
  unfolding ack_status with_db get_alert update_alert
  ack_status-count opened a aid now i d r e h (u, ids) =
      acked-count d r aid now i.world.db.next_alert i.world.db.alerts a ids h e
  ack_status-count acked a aid now i d r e h u = refl
  ack_status-count resolved a aid now i d r e h u = refl

  ack_found-count :
      (o : Option Alert) (aid : ℕ) (now : Time) (i : Ingest) (d r : Text)
      → get_alert i.world.db aid ≡ o
      → Sound i
      → open_count d r (ack_found o aid now i).world.db.alerts ≡ open_count d r i.world.db.alerts
  unfolding ack_found
  ack_found-count none aid now i d r h u = refl
  ack_found-count (some a) aid now i d r h u = ack_status-count a.status a aid now i d r refl h u

  -- Acknowledging any alert leaves as many alerts of each rule open on each device as before, where no
  -- two alerts have one id.
  pub ack_alert-open_count :
      (aid : ℕ) (now : Time) (i : Ingest) (d r : Text)
      → Sound i
      → open_count d r (ack_alert aid now i).0.world.db.alerts ≡ open_count d r i.world.db.alerts
  unfolding ack_alert
  ack_alert-open_count aid now i d r u =
      let i1 = ack_found (get_alert i.world.db aid) aid now i in
      ap (λ (db : Database). open_count d r db.alerts) (told-db (get_alert i1.world.db aid) i1)
      ∙ ack_found-count (get_alert i.world.db aid) aid now i d r refl u
