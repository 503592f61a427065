-- ===== src/Engine/Evaluate/Fired.antt =====
-- What judging a sample leaves of the alerts.
use ecu_telemetry.Prelude.{
  ◌≡◌, refl, Bool, true, false, Option, none, some, List, [], ◌∷◌, All, All-append, if◌then◌else◌,
}
use ecu_telemetry.Prelude.Tables.{lookup}
use ecu_telemetry.Python.Floats.{Floats}
use ecu_telemetry.Python.Text.{Text}
use ecu_telemetry.Bus.{Time}
use ecu_telemetry.Db.Types.{Database}
use ecu_telemetry.Db.Alerts.Unique.{IsUnique}
use ecu_telemetry.Protocol.Flags.{flags_to_names}
use ecu_telemetry.World.Types.{Threshold, RateRule, AnomalyRule, Gate, Limits, Reading, World}
use ecu_telemetry.Engine.Alerts.{Mark, mark, on_comm, set_state, state_of}
use ecu_telemetry.Engine.Alerts.Lifecycle.Keeps.{IsOpen, mark-keeps, on_comm-keeps}
use ecu_telemetry.Engine.Alerts.Lifecycle.{mark-IsUnique, mark-opens, on_comm-IsUnique}
use ecu_telemetry.Engine.Thresholds.{config_for, config_for-db, threshold_spec-db, compare}
use ecu_telemetry.Engine.Evaluate.{
  Run, fire, threshold_known, threshold_found, thresholds_loop, flags_loop, rate_known, rate_found,
  rates_loop, gate_found, gate_step, anomaly_found, anomalies_loop, anomaly_part, comm_part,
  on_telemetry,
}

module _ ⦃fl : Floats⦄ where
  open fl use {Float}

  -- A property of the database and of the fired rules that firing keeps holds after on_telemetry.
  module _ (P : Database → List Text → Type 0) (d : Text) (now : Time)
      (comm : (loss : Float) (w : World) (fired : List Text)
        → P w.db fired
        → P (on_comm d loss now w).db fired)
      (keep : (m : Mark) (cond : Bool) (w : World) (fired : List Text)
        → P w.db fired
        → P (fire d m cond now (w, fired)).0.db (fire d m cond now (w, fired)).1) where
    -- The property of a run.
    abbrev PRun : Run → Type 0
    PRun run = P run.0.db run.1

    -- A change of the world that leaves the database.
    over : (x y : Database) (fired : List Text) → y ≡ x → P x fired → P y fired
    over x y fired e h = rw e h

    threshold_known-keeps :
        (o : Option Float) (r : Threshold) (s : Text) (x : Float) (run : Run)
        → PRun run
        → PRun (threshold_known o r s x d now run)
    unfolding threshold_known
    threshold_known-keeps none r s x run h = h
    threshold_known-keeps (some thr) r s x (w, fired) h = keep _ (compare r.op x thr) w fired h

    threshold_found-keeps :
        (o : Option Float) (r : Threshold) (cfg : Limits) (run : Run)
        → PRun run
        → PRun (threshold_found o r cfg d now run)
    unfolding threshold_found
    threshold_found-keeps none r cfg run h = h
    threshold_found-keeps (some x) r cfg (w, fired) h =
        threshold_known-keeps _ r _ x _ (over w.db _ fired (threshold_spec-db r d w) h)

    thresholds_loop-keeps :
        (rs : List Threshold) (t : Reading) (cfg : Limits) (run : Run)
        → PRun run
        → PRun (thresholds_loop rs t cfg d now run)
    unfolding thresholds_loop
    thresholds_loop-keeps [] t cfg run h = h
    thresholds_loop-keeps (r ∷ rs) t cfg run h =
        thresholds_loop-keeps rs t cfg _
          (threshold_found-keeps (lookup r.metric t.metrics) r cfg run h)

    flags_loop-keeps :
        (names : List Text) (run : Run) → PRun run → PRun (flags_loop names d now run)
    unfolding flags_loop
    flags_loop-keeps [] run h = h
    flags_loop-keeps (n ∷ names) (w, fired) h = flags_loop-keeps names _ (keep _ true w fired h)

    rate_known-keeps :
        (o : Option (Time × Float)) (spec : RateRule) (x : Float) (run : Run)
        → PRun run
        → PRun (rate_known o spec x d now run)
    unfolding rate_known
    rate_known-keeps none spec x run h = h
    rate_known-keeps (some (t, v)) spec x (w, fired) h = keep _ _ w fired h

    rate_found-keeps :
        (o : Option Float) (spec : RateRule) (run : Run)
        → PRun run
        → PRun (rate_found o spec d now run)
    unfolding rate_found set_state
    rate_found-keeps none spec run h = h
    rate_found-keeps (some x) spec (w, fired) h = rate_known-keeps _ spec x (_, fired) h

    rates_loop-keeps :
        (specs : List RateRule) (t : Reading) (run : Run)
        → PRun run
        → PRun (rates_loop specs t d now run)
    unfolding rates_loop
    rates_loop-keeps [] t run h = h
    rates_loop-keeps (spec ∷ specs) t run h =
        rates_loop-keeps specs t _ (rate_found-keeps (lookup spec.metric t.metrics) spec run h)

    gate_found-db :
        (o : Option Float) (gate : Gate) (an : AnomalyRule) (w : World)
        → (gate_found o gate an d w).0.db ≡ w.db
    unfolding gate_found set_state
    gate_found-db none gate an w = refl
    gate_found-db (some gx) gate an w = refl

    gate_step-db :
        (o : Option Gate) (an : AnomalyRule) (t : Reading) (w : World)
        → (gate_step o an t d w).0.db ≡ w.db
    unfolding gate_step
    gate_step-db none an t w = refl
    gate_step-db (some gate) an t w = gate_found-db (lookup gate.metric t.metrics) gate an w

    anomaly_found-keeps :
        (o : Option Float) (an : AnomalyRule) (moving : Bool) (metric : Text) (run : Run)
        → PRun run
        → PRun (anomaly_found o an moving metric d now run)
    unfolding anomaly_found set_state
    anomaly_found-keeps none an moving metric run h = h
    anomaly_found-keeps (some x) an moving metric (w, fired) h = keep _ _ _ fired h

    anomalies_loop-keeps :
        (ms : List Text) (an : AnomalyRule) (moving : Bool) (t : Reading) (run : Run)
        → PRun run
        → PRun (anomalies_loop ms an moving t d now run)
    unfolding anomalies_loop
    anomalies_loop-keeps [] an moving t run h = h
    anomalies_loop-keeps (m ∷ ms) an moving t run h =
        anomalies_loop-keeps ms an moving t _
          (anomaly_found-keeps (lookup m t.metrics) an moving m run h)

    anomaly_part-keeps :
        (an : AnomalyRule) (t : Reading) (run : Run) → PRun run → PRun (anomaly_part an t d now run)
    unfolding anomaly_part
    anomaly_part-keeps an t (w, fired) h =
        anomalies_loop-keeps an.metrics an _ t _ (over w.db _ fired (gate_step-db an.gate an t w) h)

    if-keeps : (b : Bool) (x y : Run) → PRun x → PRun y → PRun (if b then x else y)
    if-keeps true x y p q = p
    if-keeps false x y p q = q

    -- All that on_telemetry does but for the loss.
    judged-keeps :
        (t : Reading) (rs : List Threshold) (b c : Bool) (ns : List Text) (specs : List RateRule)
        (an : AnomalyRule) (cfg : Limits) (w : World)
        → P w.db []
        → PRun (
            let run = thresholds_loop rs t cfg d now (w, []) in
            let run' = if b then flags_loop ns d now run else run in
            let run'' = rates_loop specs t d now run' in
            if c then anomaly_part an t d now run'' else run'')
    judged-keeps t rs b c ns specs an cfg w h =
        let k = thresholds_loop-keeps rs t cfg (w, []) h in
        let k' = if-keeps b _ _ (flags_loop-keeps ns _ k) k in
        let k'' = rates_loop-keeps specs t _ k' in
        if-keeps c _ _ (anomaly_part-keeps an t _ k'') k''

    comm_part-keeps : (o : Option Float) (run : Run) → PRun run → PRun (comm_part o d now run)
    unfolding comm_part
    comm_part-keeps none run h = h
    comm_part-keeps (some loss) (w, fired) h = comm loss w fired h

    on_telemetry-keeps :
        (t : Reading) (loss : Option Float) (w : World)
        → P w.db []
        → PRun (on_telemetry d t now loss w)
    unfolding on_telemetry set_state
    on_telemetry-keeps t loss w h =
        let w' = set_state d (state_of d w) w in
        comm_part-keeps loss _ (
          judged-keeps t w.engine.rules.thresholds w.engine.rules.flags_enabled
            w.engine.rules.anomaly.enabled (flags_to_names t.fault_flags) w.engine.rules.rate
            w.engine.rules.anomaly ((config_for d w').1) _ (over w'.db _ [] (config_for-db d w') h))

  fire-IsUnique :
      (d : Text) (now : Time) (m : Mark) (cond : Bool) (w : World) (fired : List Text)
      → IsUnique w.db
      → IsUnique (fire d m cond now (w, fired)).0.db
  unfolding fire
  fire-IsUnique d now m cond w fired u = mark-IsUnique d m cond now w u

  -- Judging a sample keeps one open alert at most for each device and rule.
  pub on_telemetry-IsUnique :
      (d : Text) (t : Reading) (now : Time) (loss : Option Float) (w : World)
      → IsUnique w.db
      → IsUnique (on_telemetry d t now loss w).0.db
  on_telemetry-IsUnique d t now loss w u =
      on_telemetry-keeps (λ db fired. IsUnique db) d now
        (λ loss w fired. on_comm-IsUnique d loss now w) (fire-IsUnique d now) t loss w u

  -- Every rule of a list has an alert open on the device.
  abbrev pub AllOpen : Text → Database → List Text → Type 0
  AllOpen d db rs = All (λ r. IsOpen d r db) rs

  AllOpen-map :
      (d : Text) (x y : Database) (rs : List Text)
      → ((r : Text) → IsOpen d r x → IsOpen d r y)
      → AllOpen d x rs
      → AllOpen d y rs
  AllOpen-map d x y [] f h = h
  AllOpen-map d x y (r ∷ rs) f (h, hs) = (f r h, AllOpen-map d x y rs f hs)

  fire-AllOpen :
      (d : Text) (now : Time) (m : Mark) (cond : Bool) (w : World) (fired : List Text)
      → AllOpen d w.db fired
      → AllOpen d (fire d m cond now (w, fired)).0.db (fire d m cond now (w, fired)).1
  unfolding fire
  fire-AllOpen d now m true w fired h =
      let (a, e, _) = mark-opens d m now w in
      All-append (λ r. IsOpen d r (mark d m true now w).db) fired (m.rule ∷ [])
        (AllOpen-map d w.db _ fired (λ r. mark-keeps d d r m true now w) h) ((a, e), tt)
  fire-AllOpen d now m false w fired h =
      AllOpen-map d w.db _ fired (λ r. mark-keeps d d r m false now w) h

  -- Every rule that on_telemetry returns has an alert open on the device afterwards.
  pub on_telemetry-AllOpen :
      (d : Text) (t : Reading) (now : Time) (loss : Option Float) (w : World)
      → AllOpen d (on_telemetry d t now loss w).0.db (on_telemetry d t now loss w).1
  on_telemetry-AllOpen d t now loss w =
      on_telemetry-keeps (AllOpen d) d now
        (λ loss w fired. AllOpen-map d w.db _ fired (λ r. on_comm-keeps d d r loss now w))
        (fire-AllOpen d now) t loss w tt
