-- ===== src/Engine/Evaluate.antt =====
-- on_telemetry of backend/app/anomaly.py: every rule judged for one sample.
pub mod Fired
use ecu_telemetry.Prelude.{
  ℕ, ◌+◌, ◌*◌, ◌/◌, ◌-◌, Bool, true, false, ◌&&◌, Option, none, some, List, [], ◌∷◌, ◌++◌, leb, ltb,
  if◌then◌else◌,
}
use ecu_telemetry.Prelude.Tables.{find, lookup, insert}
use ecu_telemetry.Python.Floats.{Floats}
use ecu_telemetry.Python.Text.{Text, text, ◌===◌}
use ecu_telemetry.Bus.{Time, second}
use ecu_telemetry.Protocol.Flags.{flags_to_names, fault_flag}
use ecu_telemetry.World.Types.{
  Op, ValueSpec, Threshold, RateRule, AnomalyRule, Gate, Ewma, Limits, Reading, DeviceState, World,
}
use ecu_telemetry.Engine.Alerts.{Mark, state_of, set_state, mark, on_comm}
use ecu_telemetry.Engine.Thresholds.{config_for, threshold_spec, resolve_value, compare}
use ecu_telemetry.Engine.Ewma.{
  new_ewma, update, z_score, is_hot, is_moving, is_sustained, judge, since_or,
}

-- The name of an operator.
abbrev pub op_text : Op → Text
op_text Op.gt = text ">"
op_text Op.lt = text "<"
op_text Op.ge = text ">="
op_text Op.le = text "<="

module _ ⦃fl : Floats⦄ where
  open fl use {Float}

  -- What the loops carry: the world and the rules that fired.
  abbrev pub Run : Type 0
  Run = World × List Text

  -- `self._mark(...)`, then `if cond: fired.append(rule)`
  unfoldable pub fire : Text → Mark → Bool → Time → Run → Run
  fire device_id m cond now (w, fired) =
      (mark device_id m cond now w, if cond then fired ++ (m.rule ∷ []) else fired)

  -- A clock difference in seconds.
  abbrev seconds : Time → Float
  seconds t = fl.div (fl.of_ℕ t) (fl.of_ℕ second)

  -- `rule.get("name") or f"{metric}_{op}_{thr}"`
  abbrev rule_name : Threshold → Float → Text
  rule_name rule thr = elim rule.name [
    | [] ↦ rule.metric ++ (text "_" ++ (op_text rule.op ++ (text "_" ++ fl.str thr)))
    | c ∷ s ↦ c ∷ s
  ]

  threshold_mark : Threshold → Text → Float → Float → Mark
  threshold_mark rule severity x thr = record {
    rule = rule_name rule thr;
    metric = some rule.metric;
    value = some x;
    severity = severity;
    message =
        rule.metric
        ++ (text "="
            ++ (fl.format x 2 ++ (text " " ++ (op_text rule.op ++ (text " " ++ fl.format thr 2)))));
  }

  threshold_known : Option Float → Threshold → Text → Float → Text → Time → Run → Run
  unfolding threshold_mark fire compare
  threshold_known none rule severity x device_id now run = run
  threshold_known (some thr) rule severity x device_id now run =
      fire device_id (threshold_mark rule severity x thr) (compare rule.op x thr) now run

  threshold_found : Option Float → Threshold → Limits → Text → Time → Run → Run
  unfolding threshold_known
  threshold_found none rule cfg device_id now run = run
  threshold_found (some x) rule cfg device_id now (w, fired) =
      let (w', spec, severity) = threshold_spec rule device_id w in
      threshold_known (resolve_value spec cfg) rule severity x device_id now (w', fired)

  thresholds_loop : List Threshold → Reading → Limits → Text → Time → Run → Run
  unfolding threshold_found
  thresholds_loop [] t cfg device_id now run = run
  thresholds_loop (rule ∷ rules) t cfg device_id now run =
      thresholds_loop rules t cfg device_id now
        (threshold_found (lookup rule.metric t.metrics) rule cfg device_id now run)

  abbrev severity_or : Option Text → Text
  severity_or none = text "warn"
  severity_or (some s) = s

  abbrev bit_or_zero : Option ℕ → ℕ
  bit_or_zero none = 0
  bit_or_zero (some b) = b

  flag_mark : Text → World → Mark
  flag_mark name w = record {
    rule = text "flag:" ++ name;
    metric = some (text "fault_flags");
    value = some (fl.of_ℕ (bit_or_zero (fault_flag name)));
    severity = severity_or (lookup name w.engine.rules.flags_severity);
    message = text "device reports " ++ name;
  }

  flags_loop : List Text → Text → Time → Run → Run
  unfolding flag_mark fire
  flags_loop [] device_id now run = run
  flags_loop (name ∷ names) device_id now (w, fired) =
      flags_loop names device_id now (fire device_id (flag_mark name w) true now (w, fired))

  -- `while len(hist) > 1 and now - hist[0][0] > window * 2: hist.pop(0)`
  unfoldable pub trim : Time → Time → List (Time × Float) → List (Time × Float)
  trim window now [] = []
  trim window now (h ∷ []) = h ∷ []
  trim window now (h ∷ k ∷ hist) =
      let rest = trim window now (k ∷ hist) in
      if ltb (h.0 + window * 2) now then rest else h ∷ k ∷ hist

  abbrev history_or : Option (List (Time × Float)) → List (Time × Float)
  history_or none = []
  history_or (some h) = h

  rate_mark : RateRule → Float → Float → Mark
  rate_mark spec rate dt = record {
    rule = text "rate:" ++ spec.metric;
    metric = some spec.metric;
    value = some rate;
    severity = spec.severity;
    message =
        spec.metric
        ++ (text " rising "
            ++ (fl.format rate 2
                ++ (text "/s over "
                    ++ (fl.format dt 0 ++ (text "s > " ++ (fl.str spec.max_per_s ++ text "/s"))))));
  }

  rate_known : Option (Time × Float) → RateRule → Float → Text → Time → Run → Run
  unfolding rate_mark fire
  rate_known none spec x device_id now run = run
  rate_known (some (t, v)) spec x device_id now run =
      let dt = seconds (now - t) in
      let rate = fl.div (fl.sub x v) dt in
      fire device_id (rate_mark spec rate dt) (fl.lt spec.max_per_s rate) now run

  rate_found : Option Float → RateRule → Text → Time → Run → Run
  unfolding rate_known state_of set_state
  rate_found none spec device_id now run = run
  rate_found (some x) spec device_id now (w, fired) =
      let st = state_of device_id w in
      let hist =
        trim spec.window now (history_or (lookup spec.metric st.rate_hist) ++ ((now, x) ∷ [])) in
      let ref = find (λ p. leb (p.0 + spec.window) now) hist in
      rate_known ref spec x device_id now (
        set_state device_id (record st { rate_hist = insert spec.metric hist st.rate_hist }) w,
        fired,
      )

  rates_loop : List RateRule → Reading → Text → Time → Run → Run
  unfolding rate_found
  rates_loop [] t device_id now run = run
  rates_loop (spec ∷ specs) t device_id now run =
      rates_loop specs t device_id now
        (rate_found (lookup spec.metric t.metrics) spec device_id now run)

  abbrev ewma_or : Option Ewma → Ewma
  ewma_or none = new_ewma
  ewma_or (some e) = e

  -- The gate: whether the operating point moves, and the world with the gate's own average fed.
  gate_found : Option Float → Gate → AnomalyRule → Text → World → World × Bool
  unfolding update is_moving state_of set_state
  gate_found none gate an device_id w = (w, false)
  gate_found (some gx) gate an device_id w =
      let st = state_of device_id w in
      let key = text "gate:" ++ gate.metric in
      let g = ewma_or (lookup key st.ewma) in
      (
        set_state device_id
            (record st { ewma = insert key ((update gx an.alpha true g).1) st.ewma }) w,
        is_moving gate an.warmup gx g,
      )

  gate_step : Option Gate → AnomalyRule → Reading → Text → World → World × Bool
  unfolding gate_found
  gate_step none an t device_id w = (w, false)
  gate_step (some gate) an t device_id w =
      gate_found (lookup gate.metric t.metrics) gate an device_id w

  -- `metric in gated`
  is_gated : Option Gate → Text → Bool
  is_gated none metric = false
  is_gated (some gate) metric = elim (find (λ m. m === metric) gate.applies_to) [
    | none ↦ false
    | some m ↦ true
  ]

  anomaly_mark : AnomalyRule → Text → Float → Float → Ewma → Time → Mark
  anomaly_mark an metric x z e now = record {
    rule = text "anomaly:" ++ metric;
    metric = some metric;
    value = some x;
    severity = an.severity;
    message =
        metric
        ++ (text "="
            ++ (fl.format x 2
                ++ (text " deviates z="
                    ++ (fl.format z 1
                        ++ (text " from EWMA "
                            ++ (fl.format e.mean 2
                                ++ (text " for "
                                    ++ (fl.format (seconds (now - since_or e.since now)) 1
                                        ++ text "s"))))))));
  }

  anomaly_found : Option Float → AnomalyRule → Bool → Text → Text → Time → Run → Run
  unfolding anomaly_mark fire is_gated judge z_score is_sustained state_of set_state
  anomaly_found none an moving metric device_id now run = run
  anomaly_found (some x) an moving metric device_id now (w, fired) =
      let st = state_of device_id w in
      let e = ewma_or (lookup metric st.ewma) in
      let e' = judge an (moving && is_gated an.gate metric) x now e in
      fire device_id (anomaly_mark an metric x (z_score an x e) e' now) (is_sustained an now e') now
        (set_state device_id (record st { ewma = insert metric e' st.ewma }) w, fired)

  anomalies_loop : List Text → AnomalyRule → Bool → Reading → Text → Time → Run → Run
  unfolding anomaly_found
  anomalies_loop [] an moving t device_id now run = run
  anomalies_loop (metric ∷ metrics) an moving t device_id now run =
      anomalies_loop metrics an moving t device_id now
        (anomaly_found (lookup metric t.metrics) an moving metric device_id now run)

  anomaly_part : AnomalyRule → Reading → Text → Time → Run → Run
  unfolding gate_step anomalies_loop
  anomaly_part an t device_id now (w, fired) =
      let (w', moving) = gate_step an.gate an t device_id w in
      anomalies_loop an.metrics an moving t device_id now (w', fired)

  comm_part : Option Float → Text → Time → Run → Run
  unfolding on_comm
  comm_part none device_id now run = run
  comm_part (some loss) device_id now (w, fired) = (on_comm device_id loss now w, fired)

  -- Any clock reading of a sample is taken to be after 1970, so `ts or time.time()` is ts.
  unfoldable pub on_telemetry : Text → Reading → Time → Option Float → World → World × List Text
  unfolding thresholds_loop flags_loop rates_loop anomaly_part comm_part config_for
  on_telemetry device_id t now loss w =
      let rules = w.engine.rules in
      let (w', cfg) = config_for device_id (set_state device_id (state_of device_id w) w) in
      let run = thresholds_loop rules.thresholds t cfg device_id now (w', []) in
      let run' =
        if rules.flags_enabled
        then flags_loop (flags_to_names t.fault_flags) device_id now run
        else run in
      let run'' = rates_loop rules.rate t device_id now run' in
      let run''' =
        if rules.anomaly.enabled then anomaly_part rules.anomaly t device_id now run'' else run'' in
      comm_part loss device_id now run'''
