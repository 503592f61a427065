-- ===== src/Scenario/Expect.antt =====
-- The part of validate_scenario of sim/run_sil.py that reads the expectations.
use ecu_telemetry.Prelude.{
  ℕ, ◌+◌, Bool, true, false, ◌&&◌, ◌||◌, Option, none, some, List, [], ◌∷◌, ◌++◌, if◌then◌else◌,
}
use ecu_telemetry.Python.Floats.{Floats}
use ecu_telemetry.Python.Text.{Text, text, ◌===◌}
use ecu_telemetry.Python.Sets.{has}
use ecu_telemetry.Scenario.Values.{
  Checked, passed, other_error, ◌>>>◌, require, Value, Values, Fields, get, has_key, or_value,
  as_num, as_text, as_mapping,
}
use ecu_telemetry.Scenario.Devices.{required}
use ecu_telemetry.Scenario.Timeline.{
  in_set, params_of, when_so, not_before, device_known, is_text, late_warning,
}

-- CHECKS, DEVICE_CHECKS, SEVERITIES and the values of STATE_NAMES
abbrev pub device_checks : List Text
device_checks =
    text "alert_open"
    ∷ text "alert_resolved"
    ∷ text "device_state"
    ∷ text "device_fw"
    ∷ text "config_version"
    ∷ text "loss_pct_gt"
    ∷ text "diagnosis_nonempty"
    ∷ []

abbrev pub checks : List Text
checks = device_checks ++ (text "no_alerts_of_severity" ∷ [])

abbrev pub severities : List Text
severities = text "info" ∷ text "warning" ∷ text "critical" ∷ []

abbrev pub states : List Text
states = text "IDLE" ∷ text "RUNNING" ∷ text "DEGRADED" ∷ text "FAULT" ∷ []

module _ ⦃fl : Floats⦄ where
  open fl use {Float}

  unfoldable pub is_state : Value → Bool
  is_state (Value.string s) = has s states
  is_state v = false

  unfoldable pub all_states : Values → Bool
  unfolding is_state
  all_states Values.end = true
  all_states (Values.item v vs) = is_state v && all_states vs

  unfoldable pub all_key_states : Fields → Bool
  all_key_states Fields.empty = true
  all_key_states (Fields.field k v d) = has k states && all_key_states d

  -- The state of device_state: one name, or names in a list or as a mapping's keys.
  unfoldable pub check_state : Value → Checked (Unit {0})
  unfolding all_states all_key_states is_state
  check_state Value.null = passed tt
  check_state (Value.string s) = require (is_state (Value.string s))
  check_state (Value.sequence vs) = require (all_states vs)
  check_state (Value.mapping d) = require (all_key_states d)
  check_state v = other_error

  unfoldable pub is_num : Option Value → Bool
  is_num none = false
  is_num (some v) = elim (as_num v) [ none ↦ false | some x ↦ true ]

  -- The keys that each check asks for.
  unfoldable pub check_asked : Text → Fields → Checked (Unit {0})
  unfolding check_state is_num in_set
  check_asked check params =
      when_so ((check === text "alert_open") || (check === text "alert_resolved"))
        (require (has_key (text "match") params))
      >>> λ a.
          when_so (check === text "device_fw") (require (is_text (get (text "version") params)))
          >>> λ b.
              when_so (check === text "loss_pct_gt") (require (is_num (get (text "value") params)))
              >>> λ c.
                  when_so (check === text "no_alerts_of_severity") (
                    in_set severities (or_value (get (text "severity") params) Value.null)
                    >>> require)
                  >>> λ e.
                      when_so (check === text "device_state")
                        (check_state (or_value (get (text "state") params) Value.null))

  -- An expectation, with its place in the list: its check, and the warning if it lies after the end.
  unfoldable pub check_expected : ℕ → List Text → Float → Value → Checked (Text × List Text)
  unfolding check_asked params_of device_known in_set late_warning
  check_expected i ids duration v = required (as_mapping v) >>> λ e.
      required (get (text "at_s") e) >>> λ at. required (get (text "check") e) >>> λ named.
      required (as_num at) >>> λ time. require (not_before time) >>> λ a.
      in_set checks named >>> λ known. require known >>> λ b. required (as_text named) >>> λ check.
      params_of e >>> λ params. when_so (has check device_checks) (device_known ids e) >>> λ c.
      check_asked check params >>> λ f. passed (
        check,
        if fl.lt duration time
            then (late_warning (text "expect") i at ++ text " (will still be evaluated)") ∷ []
            else [],
      )

  -- The expectations in their order, from a place on; the result is the warnings.
  unfoldable pub check_expect : ℕ → List Text → Float → Values → Checked (List Text)
  unfolding check_expected
  check_expect i ids duration Values.end = passed []
  check_expect i ids duration (Values.item v vs) = check_expected i ids duration v >>> λ (check, w).
      check_expect (i + 1) ids duration vs >>> λ ws. passed (w ++ ws)
