-- ===== src/Diagnostics/Explained.antt =====
-- What heuristic_diagnosis of backend/app/diagnostics.py answers, against lists of the rules and
-- flags that it knows.
use ecu_telemetry.Prelude.{
  ◌≡◌, refl, ◌∙◌, ap, inl, inr, ◌&&◌, ◌||◌, Bool, true, false, not, List, [], ◌∷◌, ◌++◌, ltb, arith,
  Bool-cases,
}
use ecu_telemetry.Prelude.Tables.{select}
use ecu_telemetry.Python.Floats.{Floats}
use ecu_telemetry.Python.Text.{Text, text}
use ecu_telemetry.Python.Sets.{has}
use ecu_telemetry.Bus.{Time}
use ecu_telemetry.Db.Types.{Cause}
use ecu_telemetry.Ingest.Stats.{loss_pct}
use ecu_telemetry.Diagnostics.Context.{Context}
use ecu_telemetry.Diagnostics.Blocks.{
  Found, when, is_some_text, temp_names, temp_rules, rules_of, faults_in, injected_in, is_refused,
  is_unapplied, temperature, current, voltage, vibration, encoder, sensor, position, link, presence,
  control, update_job, configuration,
}
use ecu_telemetry.Diagnostics.Heuristic.{found, blocks, join}

-- One of the first texts stands among the second.
abbrev pub any_in : List Text → List Text → Bool
any_in [] ys = false
any_in (x ∷ xs) ys = has x ys || any_in xs ys

-- The alert rules that the diagnosis knows.
abbrev pub known_rules : List Text
known_rules =
    text "temp_high"
    ∷ text "temp_critical"
    ∷ text "rate:temp_c"
    ∷ text "anomaly:temp_c"
    ∷ text "current_high"
    ∷ text "voltage_low"
    ∷ text "anomaly:voltage_v"
    ∷ text "vibration_high"
    ∷ text "anomaly:vibration_g"
    ∷ text "anomaly:rpm"
    ∷ text "rpm_high"
    ∷ text "packet_loss"
    ∷ text "offline"
    ∷ []

-- The flags that the diagnosis knows.
abbrev pub known_flags : List Text
known_flags =
    text "OVERTEMP"
    ∷ text "OVERCURRENT"
    ∷ text "UNDERVOLTAGE"
    ∷ text "VIBRATION_HIGH"
    ∷ text "SENSOR_STUCK"
    ∷ text "GPS_LOST"
    ∷ text "COMM_DEGRADED"
    ∷ text "ENCODER_FAULT"
    ∷ []

rearrange :
    (th tc rt at ch vl av vh av2 ar rh pl off ot oc uv vb ss gl cd ef loss rec job cfg : Bool)
    → (not ((th || (tc || (rt || (at || false)))) || ot)
        && (not (ch || oc)
            && (not (vl || (uv || av))
                && (not (vh || (vb || av2))
                    && (not (ef || (ar || rh))
                        && (not ss
                            && (not gl
                                && (not (pl || (cd || loss))
                                    && (not off
                                        && (not (rec && not off)
                                            && (not job && (not cfg && true))))))))))))
      ≡ not (
          (th
            || (tc
                || (rt
                    || (at
                        || (ch
                            || (vl
                                || (av
                                    || (vh
                                        || (av2 || (ar || (rh || (pl || (off || false)))))))))))))
          || ((ot || (oc || (uv || (vb || (ss || (gl || (cd || (ef || false))))))))
              || (loss || (rec || (job || cfg)))))
rearrange th tc rt at ch vl av vh av2 ar rh pl off ot oc uv vb ss gl cd ef loss rec job cfg =
    ground arith

module _ ⦃fl : Floats⦄ where
  -- Whether something is wrong that the diagnosis knows.
  unfoldable pub is_known : Context → Bool
  is_known ctx =
      any_in known_rules (rules_of ctx)
      || (any_in known_flags (faults_in ctx)
          || (fl.lt (fl.of_ℕ 10) (loss_pct ctx.comm)
              || (ltb 3 ctx.comm.reconnects || (is_refused ctx.fw_job || is_unapplied ctx.config))))

  unfoldable pub is_empty : List Cause → Bool
  is_empty [] = true
  is_empty (c ∷ cs) = false

  is_empty-append : (as' bs : List Cause) → is_empty (as' ++ bs) ≡ (is_empty as' && is_empty bs)
  unfolding is_empty
  is_empty-append [] bs = refl
  is_empty-append (a ∷ as') bs = refl

  is_empty-when :
      (b : Bool) (f : Found) → is_empty f.causes ≡ false → is_empty (when b f).causes ≡ not b
  unfolding is_empty
  is_empty-when true f h = h
  is_empty-when false f h = refl

  some_select :
      (names rules : List Text)
      → is_some_text (select (λ r. has r rules) names) ≡ any_in names rules
  some_select [] rules = refl
  some_select (n ∷ ns) rules = elim (Bool-cases (has n rules)) [
    | inl e ↦ rw e refl
    | inr e ↦ rw e (some_select ns rules)
  ]

  not_empty-last : (as' : List Cause) (c : Cause) → is_empty (as' ++ (c ∷ [])) ≡ false
  unfolding is_empty
  not_empty-last [] c = refl
  not_empty-last (a ∷ as') c = refl

  temperature_lem :
      (ctx : Context) (rules faults injected : List Text)
      → is_empty (temperature ctx rules faults injected).causes
        ≡ not (any_in temp_names rules || has (text "OVERTEMP") faults)
  unfolding temperature
  temperature_lem ctx rules faults injected =
      is_empty-when (is_some_text (temp_rules rules) || has (text "OVERTEMP") faults) _
        (not_empty-last _ _)
      ∙ ap (λ (b : Bool). not (b || has (text "OVERTEMP") faults)) (some_select temp_names rules)

  current_lem :
      (ctx : Context) (rules : List Text) (faults : List Text)
      → is_empty (current ctx rules faults).causes
        ≡ not (has (text "current_high") rules || has (text "OVERCURRENT") faults)
  unfolding current is_empty
  current_lem ctx rules faults =
      is_empty-when (has (text "current_high") rules || has (text "OVERCURRENT") faults) _ refl

  voltage_lem :
      (ctx : Context) (rules : List Text) (faults : List Text)
      → is_empty (voltage ctx rules faults).causes
        ≡ not (
            has (text "voltage_low") rules
            || (has (text "UNDERVOLTAGE") faults || has (text "anomaly:voltage_v") rules))
  unfolding voltage is_empty
  voltage_lem ctx rules faults =
      is_empty-when
        (has (text "voltage_low") rules
          || (has (text "UNDERVOLTAGE") faults || has (text "anomaly:voltage_v") rules))
        _ refl

  vibration_lem :
      (ctx : Context) (rules : List Text) (faults : List Text)
      → is_empty (vibration ctx rules faults).causes
        ≡ not (
            has (text "vibration_high") rules
            || (has (text "VIBRATION_HIGH") faults || has (text "anomaly:vibration_g") rules))
  unfolding vibration is_empty
  vibration_lem ctx rules faults =
      is_empty-when
        (has (text "vibration_high") rules
          || (has (text "VIBRATION_HIGH") faults || has (text "anomaly:vibration_g") rules))
        _ refl

  encoder_lem :
      (ctx : Context) (rules : List Text) (faults : List Text)
      → is_empty (encoder ctx rules faults).causes
        ≡ not (
            has (text "ENCODER_FAULT") faults
            || (has (text "anomaly:rpm") rules || has (text "rpm_high") rules))
  unfolding encoder is_empty
  encoder_lem ctx rules faults =
      is_empty-when
        (has (text "ENCODER_FAULT") faults
          || (has (text "anomaly:rpm") rules || has (text "rpm_high") rules))
        _ refl

  sensor_lem :
      (faults : List Text)
      → is_empty (sensor faults).causes ≡ not (has (text "SENSOR_STUCK") faults)
  unfolding sensor is_empty
  sensor_lem faults = is_empty-when (has (text "SENSOR_STUCK") faults) _ refl

  position_lem :
      (faults : List Text) → is_empty (position faults).causes ≡ not (has (text "GPS_LOST") faults)
  unfolding position is_empty
  position_lem faults = is_empty-when (has (text "GPS_LOST") faults) _ refl

  link_lem :
      (ctx : Context) (rules : List Text) (faults : List Text)
      → is_empty (link ctx rules faults).causes
        ≡ not (
            has (text "packet_loss") rules
            || (has (text "COMM_DEGRADED") faults || fl.lt (fl.of_ℕ 10) (loss_pct ctx.comm)))
  unfolding link is_empty
  link_lem ctx rules faults =
      is_empty-when
        (has (text "packet_loss") rules
          || (has (text "COMM_DEGRADED") faults || fl.lt (fl.of_ℕ 10) (loss_pct ctx.comm)))
        _ refl

  presence_lem :
      (iso : Time → Text) (ctx : Context) (rules : List Text)
      → is_empty (presence iso ctx rules).causes ≡ not (has (text "offline") rules)
  unfolding presence is_empty
  presence_lem iso ctx rules = is_empty-when (has (text "offline") rules) _ refl

  control_lem :
      (ctx : Context) (rules : List Text)
      → is_empty (control ctx rules).causes
        ≡ not (ltb 3 ctx.comm.reconnects && not (has (text "offline") rules))
  unfolding control is_empty
  control_lem ctx rules =
      is_empty-when (ltb 3 ctx.comm.reconnects && not (has (text "offline") rules)) _ refl

  update_job_lem : (ctx : Context) → is_empty (update_job ctx).causes ≡ not (is_refused ctx.fw_job)
  unfolding update_job is_empty
  update_job_lem ctx = is_empty-when (is_refused ctx.fw_job) _ refl

  configuration_lem :
      (ctx : Context) → is_empty (configuration ctx).causes ≡ not (is_unapplied ctx.config)
  unfolding configuration is_empty
  configuration_lem ctx = is_empty-when (is_unapplied ctx.config) _ refl

  is_empty_all : List Found → Bool
  unfolding is_empty
  is_empty_all [] = true
  is_empty_all (f ∷ fs) = is_empty f.causes && is_empty_all fs

  join_lem : (fs : List Found) → is_empty (join fs).causes ≡ is_empty_all fs
  unfolding is_empty is_empty_all
  join_lem [] = refl
  join_lem (f ∷ fs) =
      is_empty-append f.causes (join fs).causes
      ∙ ap (λ (b : Bool). is_empty f.causes && b) (join_lem fs)

  -- The blocks add a cause just where something is wrong that the diagnosis knows.
  pub found_lem :
      (iso : Time → Text) (ctx : Context) → is_empty (found iso ctx).causes ≡ not (is_known ctx)
  unfolding found blocks is_known is_empty_all
  found_lem iso ctx =
      let rules = rules_of ctx in
      let faults = faults_in ctx in
      let r = λ (name : Text). has name rules in
      let f = λ (name : Text). has name faults in
      join_lem (blocks iso ctx)
      ∙ rw
          (
            temperature_lem ctx rules faults (injected_in ctx),
            current_lem ctx rules faults,
            voltage_lem ctx rules faults,
            vibration_lem ctx rules faults,
            encoder_lem ctx rules faults,
            sensor_lem faults,
            position_lem faults,
            link_lem ctx rules faults,
            presence_lem iso ctx rules,
            control_lem ctx rules,
            update_job_lem ctx,
            configuration_lem ctx,
          )
          (rearrange (r (text "temp_high")) (r (text "temp_critical")) (r (text "rate:temp_c"))
            (r (text "anomaly:temp_c")) (r (text "current_high")) (r (text "voltage_low"))
            (r (text "anomaly:voltage_v")) (r (text "vibration_high"))
            (r (text "anomaly:vibration_g")) (r (text "anomaly:rpm")) (r (text "rpm_high"))
            (r (text "packet_loss")) (r (text "offline")) (f (text "OVERTEMP"))
            (f (text "OVERCURRENT")) (f (text "UNDERVOLTAGE")) (f (text "VIBRATION_HIGH"))
            (f (text "SENSOR_STUCK")) (f (text "GPS_LOST")) (f (text "COMM_DEGRADED"))
            (f (text "ENCODER_FAULT")) (fl.lt (fl.of_ℕ 10) (loss_pct ctx.comm))
            (ltb 3 ctx.comm.reconnects) (is_refused ctx.fw_job) (is_unapplied ctx.config))
