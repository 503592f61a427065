-- ===== src/Diagnostics/Blocks.antt =====
-- heuristic_diagnosis of backend/app/diagnostics.py: what it reads, and one block for each test.
use ecu_telemetry.Prelude.{
  ◌&&◌, ◌||◌, Bool, true, false, not, Option, none, some, List, [], ◌∷◌, ◌++◌, map, drop, take,
  length, ltb, if◌then◌else◌,
}
use ecu_telemetry.Prelude.Tables.{select, lookup}
use ecu_telemetry.Python.Floats.{Floats}
use ecu_telemetry.Python.Text.{Text, text, ◌===◌}
use ecu_telemetry.Python.Decimal.{str_int}
use ecu_telemetry.Python.Sets.{has, distinct, text_le, sort_with, list_repr}
use ecu_telemetry.Bus.{Time}
use ecu_telemetry.Protocol.Flags.{flags_to_names}
use ecu_telemetry.Db.Types.{DeviceConfig, FwJob, Alert, Agg, Cause, FaultInjection, Device}
use ecu_telemetry.Ingest.Stats.{loss_pct}
use ecu_telemetry.Diagnostics.Context.{Context}

module _ ⦃fl : Floats⦄ where
  open fl use {Float}

  abbrev starts_with : Text → Text → Bool
  starts_with prefix s = take (length prefix) s === prefix

  -- The sets of the function's head.
  unfoldable pub rules_of : Context → List Text
  rules_of ctx = distinct (map (λ a. a.rule) ctx.open_alerts)

  -- `a["rule"][5:]` of the rules that begin with "flag:"
  unfoldable pub flagged : List Alert → List Text
  flagged [] = []
  flagged (a ∷ rest) =
      let more = flagged rest in
      if starts_with (text "flag:") a.rule then drop 5 a.rule ∷ more else more

  unfoldable pub faults_in : Context → List Text
  unfolding flagged
  faults_in ctx = distinct (ctx.active_faults ++ flagged ctx.open_alerts)

  all_set : List FaultInjection → List Text
  all_set [] = []
  all_set (f ∷ rest) = flags_to_names f.set_flags ++ all_set rest

  unfoldable pub injected_in : Context → List Text
  unfolding all_set
  injected_in ctx = distinct (all_set ctx.injections)

  -- What a block adds: causes, and actions.
  pub record Found : Type 0 where
    pub causes : List Cause
    pub actions : List Text

  abbrev cause_of : Text → Text → Float → Cause
  cause_of cause evidence lik = record { cause = cause; evidence = evidence; likelihood = lik }

  abbrev nothing : Found
  nothing = record { causes = []; actions = [] }

  abbrev one : Text → Text → Float → List Text → Found
  one cause evidence lik actions = record {
    causes = cause_of cause evidence lik ∷ [];
    actions = actions;
  }

  -- str of an entry of stats_5m, and of what may be missing.
  stat_repr : Option Agg → Text
  stat_repr none = text "None"
  stat_repr (some a) =
      text "{'avg': "
      ++ (fl.str a.avg
          ++ (text ", 'min': "
              ++ (fl.str a.least ++ (text ", 'max': " ++ (fl.str a.greatest ++ text "}")))))

  unfoldable pub stat_text : Context → Text → Text
  unfolding stat_repr
  stat_text ctx name = stat_repr (lookup name ctx.stats.metrics)

  unfoldable pub limit_text : (DeviceConfig → Float) → Option DeviceConfig → Text
  limit_text f none = text "None"
  limit_text f (some c) = fl.str (f c)

  -- `sorted(faults) or 'none'`
  unfoldable pub faults_text : List Text → Text
  faults_text [] = text "none"
  faults_text (f ∷ fs) = list_repr (sort_with text_le (f ∷ fs))

  abbrev pub temp_names : List Text
  temp_names =
      text "temp_high" ∷ text "temp_critical" ∷ text "rate:temp_c" ∷ text "anomaly:temp_c" ∷ []

  abbrev pub temp_rules : List Text → List Text
  temp_rules rules = select (λ r. has r rules) temp_names

  temp_evidence : Context → List Text → Text
  unfolding stat_text limit_text
  temp_evidence ctx rules =
      text "alerts "
      ++ (list_repr (sort_with text_le (temp_rules rules))
          ++ (text "; temp_c stats "
              ++ (stat_text ctx (text "temp_c")
                  ++ (text "; limit " ++ limit_text (λ c. c.temp_limit_c) ctx.config))))

  abbrev pub is_some_text : List Text → Bool
  is_some_text [] = false
  is_some_text (x ∷ xs) = true

  abbrev pub when : Bool → Found → Found
  when b found = if b then found else nothing

  abbrev overcurrent : List Text → List Text → Bool
  overcurrent rules faults = has (text "current_high") rules || has (text "OVERCURRENT") faults

  heat_cause : Context → List Text → List Text → Text → Cause
  unfolding stat_text
  heat_cause ctx rules faults ev =
      if overcurrent rules faults
      then cause_of (text "Thermal runaway from sustained overcurrent (winding I^2R heating)")
          (ev ++ (text "; current_a stats " ++ stat_text ctx (text "current_a"))) (fl.lit 5 1)
      else if has (text "rate:temp_c") rules
      then cause_of (text "Rapid heating: cooling loss or stalled rotor / high load at low rpm")
          (ev ++ (text "; rpm stats " ++ stat_text ctx (text "rpm"))) (fl.lit 45 2)
      else cause_of (text "Winding overtemperature due to cooling degradation or ambient load") ev
          (fl.lit 4 1)

  injected_heat : List Text → Text → List Cause
  injected_heat injected ev =
      if has (text "OVERTEMP") injected
      then cause_of (text "SIL-injected OVERTEMP fault (test scenario)")
          (ev ++ text "; OVERTEMP present in recent fault injections") (fl.lit 6 1)
        ∷ []
      else []

  unfoldable pub temperature : Context → List Text → List Text → List Text → Found
  unfolding heat_cause injected_heat temp_evidence
  temperature ctx rules faults injected =
      let ev = temp_evidence ctx rules in
      when (is_some_text (temp_rules rules) || has (text "OVERTEMP") faults) (record {
        causes = injected_heat injected ev ++ (heat_cause ctx rules faults ev ∷ []);
        actions =
            text "Derate torque/current until temp_c falls below limit"
            ∷ text "Inspect coolant flow / fan and heatsink contact"
            ∷ text "Lower current_limit_a via config if load profile allows"
            ∷ [];
      })

  unfoldable pub current : Context → List Text → List Text → Found
  current ctx rules faults = when (overcurrent rules faults) (
      one (text "Phase overcurrent: mechanical overload, short, or aggressive torque demand")
        (text "current_a stats "
          ++ (stat_text ctx (text "current_a")
              ++ (text "; limit " ++ limit_text (λ c. c.current_limit_a) ctx.config)))
        (fl.lit 45 2)
        (text "Check for mechanical binding / brake drag"
          ∷ text "Inspect phase wiring and insulation resistance"
          ∷ []))

  unfoldable pub voltage : Context → List Text → List Text → Found
  voltage ctx rules faults =
      when
        (has (text "voltage_low") rules
          || (has (text "UNDERVOLTAGE") faults || has (text "anomaly:voltage_v") rules))
        (one (text "DC bus undervoltage: weak battery / high-resistance connection / regen fault")
          (text "voltage_v stats " ++ (stat_text ctx (text "voltage_v") ++ text " (48 V system)"))
          (fl.lit 45 2)
          (text "Check battery SoC and pack balance"
            ∷ text "Measure bus voltage drop under load at the connector"
            ∷ []))

  unfoldable pub vibration : Context → List Text → List Text → Found
  vibration ctx rules faults =
      when
        (has (text "vibration_high") rules
          || (has (text "VIBRATION_HIGH") faults || has (text "anomaly:vibration_g") rules))
        (one (text "Mechanical imbalance / bearing wear / loose mount")
          (text "vibration_g stats " ++ stat_text ctx (text "vibration_g")) (fl.lit 45 2)
          (text "Inspect bearings and motor mounts"
            ∷ text "Perform a coast-down vibration spectrum check"
            ∷ []))

  unfoldable pub encoder : Context → List Text → List Text → Found
  encoder ctx rules faults =
      when
        (has (text "ENCODER_FAULT") faults
          || (has (text "anomaly:rpm") rules || has (text "rpm_high") rules))
        (one (text "Encoder/position feedback fault causing rpm instability")
          (text "rpm stats "
            ++ (stat_text ctx (text "rpm")
                ++ (text "; faults " ++ list_repr (sort_with text_le faults))))
          (fl.lit 4 1)
          (text "Check encoder cabling and shielding"
            ∷ text "Re-run encoder alignment/calibration"
            ∷ []))

  unfoldable pub sensor : List Text → Found
  sensor faults = when (has (text "SENSOR_STUCK") faults) (
      one (text "Stuck sensor reading (frozen ADC channel or broken sensor)")
        (text "SENSOR_STUCK flag reported by device") (fl.lit 5 1)
        (text "Compare stuck channel to redundant/estimated value"
          ∷ text "Replace sensor or harness"
          ∷ []))

  unfoldable pub position : List Text → Found
  position faults = when (has (text "GPS_LOST") faults) (
      one (text "GPS fix lost (antenna, tunnel/urban canyon, or receiver fault)")
        (text "GPS_LOST flag") (fl.lit 35 2)
        (text "Verify GPS antenna connection; ignore position-derived metrics until fix returns"
          ∷ []))

  unfoldable pub link : Context → List Text → List Text → Found
  link ctx rules faults =
      when
        (has (text "packet_loss") rules
          || (has (text "COMM_DEGRADED") faults || fl.lt (fl.of_ℕ 10) (loss_pct ctx.comm)))
        (one (text "Degraded UDP link (RF interference, congestion, or lossy path)")
          (text "loss_pct "
            ++ (fl.str (loss_pct ctx.comm)
                ++ (text ", seq_gaps "
                    ++ (str_int ctx.comm.seq_gaps
                        ++ (text ", bad_crc " ++ str_int ctx.comm.bad_crc)))))
          (fl.lit 5 1)
          (text "Inspect network path / antenna; reduce telemetry_hz if link budget is marginal"
            ∷ []))

  -- str of iso(last_seen), by the clock's format.
  unfoldable pub seen_text : (Time → Text) → Option Device → Text
  seen_text iso none = text "None"
  seen_text iso (some d) = elim d.last_seen [ none ↦ text "None" | some t ↦ iso t ]

  unfoldable pub presence : (Time → Text) → Context → List Text → Found
  presence iso ctx rules = when (has (text "offline") rules) (
      one (text "Device offline: power loss, reboot loop, or network partition")
        (text "no HEARTBEAT/TELEMETRY; reconnects "
          ++ (str_int ctx.comm.reconnects ++ (text "; last_seen " ++ seen_text iso ctx.device)))
        (fl.lit 6 1)
        (text "Check device power and network reachability"
          ∷ text "Review last logs before disconnect"
          ∷ []))

  unfoldable pub control : Context → List Text → Found
  control ctx rules = when (ltb 3 ctx.comm.reconnects && not (has (text "offline") rules)) (
      one (text "Unstable TCP control link (frequent reconnects)")
        (text "reconnects " ++ str_int ctx.comm.reconnects) (fl.lit 3 1) [])

  -- `(ctx.get("fw_job") or {}).get("status") in ("rejected", "failed")`
  abbrev pub is_refused : Option FwJob → Bool
  is_refused none = false
  is_refused (some j) = (j.status === text "rejected") || (j.status === text "failed")

  abbrev job_text : Option FwJob → Text
  job_text none = text "None"
  job_text (some j) =
      text "{'target': '"
      ++ (j.target_version ++ (text "', 'status': '" ++ (j.status ++ text "'}")))

  unfoldable pub update_job : Context → Found
  update_job ctx = when (is_refused ctx.fw_job) (
      one (text "Firmware update rejected by device (version downgrade or malformed image)")
        (text "fw_job " ++ job_text ctx.fw_job) (fl.lit 5 1)
        (text "Choose a firmware version higher than the installed one" ∷ []))

  abbrev pub is_unapplied : Option DeviceConfig → Bool
  is_unapplied none = false
  is_unapplied (some c) =
      has c.ack_status (text "rejected" ∷ text "queued" ∷ text "pending" ∷ text "sent" ∷ [])

  config_text : Option DeviceConfig → Text
  config_text none = []
  config_text (some c) =
      text "config v" ++ (str_int c.version ++ (text " ack_status=" ++ c.ack_status))

  unfoldable pub configuration : Context → Found
  unfolding config_text
  configuration ctx = when (is_unapplied ctx.config) (
      one (text "Config push not acknowledged/applied") (config_text ctx.config) (fl.lit 25 2)
        (text "Re-send config once the device control channel reconnects" ∷ []))
