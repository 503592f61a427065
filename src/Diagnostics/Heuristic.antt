-- ===== src/Diagnostics/Heuristic.antt =====
-- heuristic_diagnosis and Diagnostician.diagnose of backend/app/diagnostics.py.
use ecu_telemetry.Prelude.{
  ◌&&◌, Bool, true, false, not, Option, some, List, [], ◌∷◌, ◌++◌, map, length, ltb, if◌then◌else◌,
}
use ecu_telemetry.Python.Result.{Result, ok}
use ecu_telemetry.Python.Floats.{Floats}
use ecu_telemetry.Python.Text.{Text, text}
use ecu_telemetry.Python.Decimal.{str_int}
use ecu_telemetry.Python.Sets.{has, distinct, sort_with, list_repr, text_le}
use ecu_telemetry.Bus.{Time}
use ecu_telemetry.Db.Types.{Cause, Diagnosis, DiagnosisRow}
use ecu_telemetry.Db.Diagnoses.{save_diagnosis}
use ecu_telemetry.Ingest.Stats.{loss_pct}
use ecu_telemetry.Ingest.State.{Ingest, with_db}
use ecu_telemetry.Diagnostics.Context.{Context, build_context}
use ecu_telemetry.Diagnostics.Blocks.{
  Found, rules_of, faults_in, injected_in, faults_text, temperature, current, voltage, vibration,
  encoder, sensor, position, link, presence, control, update_job, configuration,
}

module _ ⦃fl : Floats⦄ where
  open fl use {Float}

  abbrev pub join : List Found → Found
  join [] = record { causes = []; actions = [] }
  join (f ∷ fs) =
      let rest = join fs in
      record { causes = f.causes ++ rest.causes; actions = f.actions ++ rest.actions }

  -- The blocks in their order.
  unfoldable pub blocks : (Time → Text) → Context → List Found
  blocks iso ctx =
      let rules = rules_of ctx in
      let faults = faults_in ctx in
      temperature ctx rules faults (injected_in ctx)
      ∷ current ctx rules faults
      ∷ voltage ctx rules faults
      ∷ vibration ctx rules faults
      ∷ encoder ctx rules faults
      ∷ sensor faults
      ∷ position faults
      ∷ link ctx rules faults
      ∷ presence iso ctx rules
      ∷ control ctx rules
      ∷ update_job ctx
      ∷ configuration ctx
      ∷ []

  unfoldable pub found : (Time → Text) → Context → Found
  unfolding blocks
  found iso ctx = join (blocks iso ctx)

  abbrev pub sum_of : Float → List Cause → Float
  sum_of acc [] = acc
  sum_of acc (c ∷ cs) = sum_of (fl.add acc c.likelihood) cs

  -- `sum(...) or 1.0`
  unfoldable pub total_of : List Cause → Float
  total_of cs =
      let total = sum_of (fl.of_ℕ 0) cs in
      if fl.le total (fl.of_ℕ 0) && fl.le (fl.of_ℕ 0) total then fl.of_ℕ 1 else total

  abbrev pub scaled : Float → Cause → Cause
  scaled total c = record c { likelihood = fl.round (fl.div c.likelihood total) 2 }

  -- `causes.sort(key=lambda c: -c["likelihood"])`
  abbrev pub more_likely : Cause → Cause → Bool
  more_likely a b = not (fl.lt a.likelihood b.likelihood)

  unfoldable pub ranked : List Cause → List Cause
  unfolding total_of sort_with
  ranked cs = sort_with more_likely (map (scaled (total_of cs)) cs)

  top_of : List Cause → Text
  top_of [] = []
  top_of (c ∷ cs) = c.cause

  abbrev meets : List Text → List Text → Bool
  meets [] ys = false
  meets (x ∷ xs) ys = if has x ys then true else meets xs ys

  -- min(0.9, 0.4 + 0.1 * len(rules) + (0.2 if faults & injected else 0.0))
  confidence_of : Context → Float
  confidence_of ctx =
      let bonus = if meets (faults_in ctx) (injected_in ctx) then fl.lit 2 1 else fl.of_ℕ 0 in
      let sum =
        fl.add (fl.add (fl.lit 4 1) (fl.mul (fl.lit 1 1) (fl.of_ℕ (length (rules_of ctx)))))
          bonus in
      if fl.lt sum (fl.lit 9 1) then sum else fl.lit 9 1

  summary_of : Context → List Cause → Text
  unfolding top_of
  summary_of ctx causes =
      str_int (length (rules_of ctx))
      ++ (text " open alert(s) "
          ++ (list_repr (sort_with text_le (rules_of ctx))
              ++ (text "; active faults "
                  ++ (faults_text (faults_in ctx)
                      ++ (text ". Most likely: " ++ (top_of causes ++ text "."))))))

  -- The branch with causes.
  unfoldable pub explained : Context → Found → Text → Diagnosis
  unfolding summary_of confidence_of ranked
  explained ctx f at =
      let causes = ranked f.causes in
      record {
        summary = summary_of ctx causes;
        probable_causes = causes;
        recommended_actions = distinct f.actions;
        confidence = fl.round (confidence_of ctx) 2;
        generated_at = some at;
      }

  -- The branch without.
  unfoldable pub nominal : Context → Text → Diagnosis
  nominal ctx at = record {
    summary =
        text "No active faults or alerts; telemetry within configured limits. "
        ++ text "Device appears healthy.";
    probable_causes =
        record {
          cause = text "Nominal operation";
          evidence =
              text "no open alerts, faults "
              ++ (faults_text (faults_in ctx)
                  ++ (text ", loss_pct " ++ fl.str (loss_pct ctx.comm)));
          likelihood = fl.lit 9 1;
        }
        ∷ [];
    recommended_actions = distinct (text "No action required; continue monitoring" ∷ []);
    confidence = fl.round (if ltb 0 ctx.stats.n then fl.lit 8 1 else fl.lit 4 1) 2;
    generated_at = some at;
  }

  unfoldable pub diagnosis_of : Context → Found → List Cause → Text → Diagnosis
  unfolding explained nominal
  diagnosis_of ctx f [] at = nominal ctx at
  diagnosis_of ctx f (c ∷ cs) at = explained ctx f at

  -- iso(time.time()) is `at`.
  unfoldable pub heuristic_diagnosis : (Time → Text) → Context → Text → Diagnosis
  unfolding diagnosis_of found
  heuristic_diagnosis iso ctx at = let f = found iso ctx in diagnosis_of ctx f f.causes at

  -- What _ask_claude returns: none without a key, an exception, or a diagnosis.
  abbrev pub Claude : Type 0
  Claude = Option (Result Diagnosis)

  answer_or : Claude → Text → Diagnosis → Text × Diagnosis
  answer_or (some (ok d)) model h = (model, d)
  answer_or _ model h = (text "heuristic", h)

  unfoldable pub diagnose :
      (Time → Text) → (Context → Claude) → Text → Text → Time → Ingest → Ingest × DiagnosisRow
  unfolding answer_or with_db heuristic_diagnosis
  diagnose iso ask model device_id now i =
      let (i', ctx) = build_context device_id now i in
      let (by, result) = answer_or (ask ctx) model (heuristic_diagnosis iso ctx (iso now)) in
      let saved = save_diagnosis device_id by result now i'.world.db in
      (with_db (λ db. saved.0) i', saved.1)
