-- ===== src/Engine/Alerts/Lifecycle/Tick.antt =====
-- tick: which alerts it resolves.
use ecu_telemetry.Prelude.{
  ◌+◌, ◌≤◌, ◌≡◌, refl, ◌∙◌, ap, ◌⊎◌, inl, inr, Bool, true, false, Option, none, some, List, [], ◌∷◌,
  leb, leb_of_le, Option-cases, if◌then◌else◌,
}
use ecu_telemetry.Prelude.Tables.{Dict, lookup}
use ecu_telemetry.Python.Floats.{Floats}
use ecu_telemetry.Python.Text.{Text, ◌===◌}
use ecu_telemetry.Bus.{Time}
use ecu_telemetry.Db.Types.{Alert}
use ecu_telemetry.Db.Alerts.{open_alert, alerts, get_alert, update_alert, only_open}
use ecu_telemetry.Db.Alerts.Unique.{IsUnique, resolve_fields}
use ecu_telemetry.World.Types.{DeviceState, Engine, World, Rules}
use ecu_telemetry.Engine.Alerts.{
  set_state, emit, close_found, resolve, offline, tick_rules, tick_devices, is_active, sweep, tick,
}
use ecu_telemetry.Engine.Alerts.Lifecycle.{resolve-IsUnique, resolve-clears, resolve-stays}

-- An entry of a dict, as its loop meets it.
abbrev pub Has : {V : Type 0} → Text → V → Dict V → Type 0
Has k v [] = ⊥
Has k v ((j, u) ∷ d) = ((j ≡ k) × (u ≡ v)) ⊎ Has k v d

module _ ⦃fl : Floats⦄ where
  -- A property of the world that resolving keeps holds after the loops of tick.
  module _ (P : World → Type 0)
      (keep : (d r : Text) (now : Time) (w : World) → P w → P (resolve d r now w)) where
    step-keeps :
        (b c : Bool) (d r : Text) (now : Time) (w : World)
        → P w
        → P (if b then w else if c then resolve d r now w else w)
    step-keeps true c d r now w h = h
    step-keeps false true d r now w h = keep d r now w h
    step-keeps false false d r now w h = h

    tick_rules-keeps :
        (d : Text) (rs : List (Text × Time)) (now : Time) (w : World)
        → P w
        → P (tick_rules d rs now w)
    unfolding tick_rules
    tick_rules-keeps d [] now w h = h
    tick_rules-keeps d ((r, t) ∷ rs) now w h =
        tick_rules-keeps d rs now _
          (step-keeps (r === offline) (leb (t + w.engine.rules.resolve_after) now) d r now w h)

    tick_devices-keeps :
        (ds : List (Text × DeviceState)) (now : Time) (w : World) → P w → P (tick_devices ds now w)
    unfolding tick_devices
    tick_devices-keeps [] now w h = h
    tick_devices-keeps ((d, st) ∷ ds) now w h =
        tick_devices-keeps ds now _ (tick_rules-keeps d st.active now w h)

    sweep_step-keeps :
        (a b c : Bool) (d r : Text) (now : Time) (w : World)
        → P w
        → P (if a then w else if b then w else if c then resolve d r now w else w)
    sweep_step-keeps true b c d r now w h = h
    sweep_step-keeps false true c d r now w h = h
    sweep_step-keeps false false true d r now w h = keep d r now w h
    sweep_step-keeps false false false d r now w h = h

    sweep-keeps : (xs : List Alert) (now : Time) (w : World) → P w → P (sweep xs now w)
    unfolding sweep
    sweep-keeps [] now w h = h
    sweep-keeps (a ∷ xs) now w h = sweep-keeps xs now _ (
        sweep_step-keeps (a.rule === offline)
          (is_active (lookup a.device_id w.engine.devices) a.rule)
          (leb (a.updated_at + w.engine.rules.resolve_after) now) a.device_id a.rule now w h)

    tick-keeps : (now : Time) (w : World) → P w → P (tick now w)
    unfolding tick
    tick-keeps now w h =
        sweep-keeps (alerts none only_open 1000 (tick_devices w.engine.devices now w).db) now _
          (tick_devices-keeps w.engine.devices now w h)

  -- tick keeps one open alert at most for each device and rule.
  pub tick-IsUnique : (now : Time) (w : World) → IsUnique w.db → IsUnique (tick now w).db
  tick-IsUnique = tick-keeps (λ w. IsUnique w.db) resolve-IsUnique

  close_found-rules :
      (o : Option Alert) (now : Time) (w : World) → (close_found o now w).engine ≡ w.engine
  unfolding close_found emit
  close_found-rules none now w = refl
  close_found-rules (some a) now w =
      elim (Option-cases (get_alert (update_alert a.id (resolve_fields now) now w.db) a.id)) [
        | inl e ↦ rw e
        | inr (b, e) ↦ rw e
      ]

  -- resolve changes no rule.
  resolve-rules :
      (d r : Text) (now : Time) (w : World) → (resolve d r now w).engine.rules ≡ w.engine.rules
  unfolding resolve set_state
  resolve-rules d r now w =
      ap (λ (e : Engine). e.rules) (close_found-rules (open_alert w.db d r) now _)

  -- What tick's loops carry along: unique alerts, and a hold time that stays.
  Ready : Time → World → Type 0
  Ready hold w = IsUnique w.db × (w.engine.rules.resolve_after ≡ hold)

  Ready-keep :
      (hold : Time) (d r : Text) (now : Time) (w : World)
      → Ready hold w
      → Ready hold (resolve d r now w)
  unfolding Ready
  Ready-keep hold d r now w (u, e) = (
    resolve-IsUnique d r now w u,
    ap (λ (x : Rules). x.resolve_after) (resolve-rules d r now w) ∙ e,
  )

  Closed : Text → Text → World → Type 0
  Closed d r w = open_alert w.db d r ≡ none

  Closed-keep :
      (d r d' r' : Text) (now : Time) (w : World) → Closed d r w → Closed d r (resolve d' r' now w)
  unfolding Closed
  Closed-keep d r d' r' now w e = resolve-stays d' r' d r now w e

  step-closes :
      (b c : Bool) (d r r' : Text) (now : Time) (w : World)
      → r' ≡ r
      → b ≡ false
      → c ≡ true
      → IsUnique w.db
      → Closed d r (if b then w else if c then resolve d r' now w else w)
  unfolding Closed
  step-closes true c d r r' now w e p q u = cc
  step-closes false true d r r' now w e p q u = rw e (resolve-clears d r now w u)
  step-closes false false d r r' now w e p q u = cc

  tick_rules-closes :
      (d r : Text) (rs : List (Text × Time)) (t now : Time) (hold : Time) (w : World)
      → Has r t rs
      → (r === offline) ≡ false
      → t + hold ≤ now
      → Ready hold w
      → Closed d r (tick_rules d rs now w)
  unfolding tick_rules Ready
  tick_rules-closes d r [] t now hold w h out due k = elim h [ ]
  tick_rules-closes d r ((r', t') ∷ rs) t now hold w (inl (p, q)) out due (u, e) =
      tick_rules-keeps (Closed d r) (Closed-keep d r) d rs now _ (
        step-closes (r' === offline) (leb (t' + w.engine.rules.resolve_after) now) d r r' now w p
          (ap (λ (x : Text). x === offline) p ∙ out)
          (ap (λ (x : Time). leb (x + w.engine.rules.resolve_after) now) q
            ∙ ap (λ (x : Time). leb (t + x) now) e
            ∙ leb_of_le _ _ due)
          u)
  tick_rules-closes d r ((r', t') ∷ rs) t now hold w (inr h) out due k =
      tick_rules-closes d r rs t now hold _ h out due (
        step-keeps (Ready hold) (Ready-keep hold) (r' === offline)
          (leb (t' + w.engine.rules.resolve_after) now) d r' now w k)

  tick_devices-closes :
      (d r : Text) (ds : List (Text × DeviceState)) (st : DeviceState) (t now hold : Time)
      (w : World)
      → Has d st ds
      → Has r t st.active
      → (r === offline) ≡ false
      → t + hold ≤ now
      → Ready hold w
      → Closed d r (tick_devices ds now w)
  unfolding tick_devices
  tick_devices-closes d r [] st t now hold w i h out due k = elim i [ ]
  tick_devices-closes d r ((d', st') ∷ ds) st t now hold w (inl (p, q)) h out due k =
      tick_devices-keeps (Closed d r) (Closed-keep d r) ds now _
        (rw (p, q) (tick_rules-closes d r st.active t now hold w h out due k))
  tick_devices-closes d r ((d', st') ∷ ds) st t now hold w (inr i) h out due k =
      tick_devices-closes d r ds st t now hold _ i h out due
        (tick_rules-keeps (Ready hold) (Ready-keep hold) d' st'.active now w k)

  sweep_all-keeps :
      (d r : Text) (now : Time) (w : World)
      → Closed d r w
      → Closed d r (sweep (alerts none only_open 1000 w.db) now w)
  sweep_all-keeps d r now w = sweep-keeps (Closed d r) (Closed-keep d r) _ now w

  -- Where each device and rule has one open alert at most and no two alerts have one id: when a rule other than offline was last
  -- seen true on a device at least resolve_after ago, no alert of it is open on the device after tick.
  pub tick-resolves :
      (d r : Text) (st : DeviceState) (t now : Time) (w : World)
      → IsUnique w.db
      → Has d st w.engine.devices
      → Has r t st.active
      → (r === offline) ≡ false
      → t + w.engine.rules.resolve_after ≤ now
      → open_alert (tick now w).db d r ≡ none
  unfolding tick Closed Ready
  tick-resolves d r st t now w u i h out due =
      sweep_all-keeps d r now (tick_devices w.engine.devices now w)
        (tick_devices-closes d r w.engine.devices st t now _ w i h out due (u, refl))
