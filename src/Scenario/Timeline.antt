-- ===== src/Scenario/Timeline.antt =====
-- The part of validate_scenario of sim/run_sil.py that reads the timeline.
use ecu_telemetry.Prelude.{
  ℕ, suc, ◌+◌, ◌++◌, Bool, true, false, not, ◌&&◌, ◌||◌, Option, some, List, [], ◌∷◌, if◌then◌else◌,
}
use ecu_telemetry.Python.Floats.{Floats}
use ecu_telemetry.Python.Decimal.{ℤ, str_int}
use ecu_telemetry.Python.Text.{Text, text, ◌===◌}
use ecu_telemetry.Python.Sets.{has}
use ecu_telemetry.Scenario.Values.{
  Checked, passed, schema_error, other_error, ◌>>>◌, require, Value, Values, Fields, get, has_key,
  or_value, truthy, as_num, as_text, as_mapping,
}
use ecu_telemetry.Scenario.Faults.{fault_names}
use ecu_telemetry.Scenario.Devices.{required}

-- ACTIONS, and DEVICE_ACTIONS
abbrev pub actions : List Text
actions =
    text "fault"
    ∷ text "clear_fault"
    ∷ text "config"
    ∷ text "firmware_register"
    ∷ text "firmware_deploy"
    ∷ text "cmd"
    ∷ text "proxy_set"
    ∷ text "note"
    ∷ []

abbrev pub device_actions : List Text
device_actions =
    text "fault" ∷ text "clear_fault" ∷ text "config" ∷ text "firmware_deploy" ∷ text "cmd" ∷ []

module _ ⦃fl : Floats⦄ where
  open fl use {Float}

  -- `x in names`, a set or a dict of texts: a sequence or a mapping has no hash.
  unfoldable pub in_set : List Text → Value → Checked Bool
  in_set names (Value.string s) = passed (has s names)
  in_set names (Value.sequence vs) = other_error
  in_set names (Value.mapping d) = other_error
  in_set names v = passed false

  -- `ev.get("params", {}) or {}`, which has to be a mapping.
  unfoldable pub params_of : Fields → Checked Fields
  unfolding truthy
  params_of d =
      let v = or_value (get (text "params") d) (Value.mapping Fields.empty) in
      if truthy v then required (as_mapping v) else passed Fields.empty

  unfoldable pub is_text : Option Value → Bool
  is_text (some (Value.string s)) = true
  is_text v = false

  -- A non-empty list.
  unfoldable pub list_of : Option Value → Checked Values
  list_of (some (Value.sequence (Values.item v vs))) = passed (Values.item v vs)
  list_of v = schema_error

  -- Every name is one of FAULT_NAMES.
  unfoldable pub known_faults : Values → Checked (Unit {0})
  unfolding in_set
  known_faults Values.end = passed tt
  known_faults (Values.item v vs) =
      in_set fault_names v >>> λ known. require known >>> λ x. known_faults vs

  unfoldable pub all_keys : List Text → Fields → Bool
  all_keys [] d = true
  all_keys (k ∷ ks) d = has_key k d && all_keys ks d

  unfoldable pub one_of : List Text → Option Value → Bool
  one_of names (some (Value.string s)) = has s names
  one_of names v = false

  -- `if test: _require(...)`
  abbrev pub when_so : Bool → Checked (Unit {0}) → Checked (Unit {0})
  when_so test c = if test then c else passed tt

  -- The keys that each action asks for.
  unfoldable pub check_params : Bool → Text → Fields → Checked (Unit {0})
  unfolding known_faults list_of all_keys is_text one_of
  check_params proxied action params =
      when_so (action === text "fault") (list_of (get (text "set") params) >>> known_faults)
      >>> λ a.
          when_so (action === text "clear_fault")
            (list_of (get (text "clear") params) >>> λ vs. passed tt)
          >>> λ b.
              when_so (action === text "config") (
                require (
                  all_keys
                    (text "telemetry_hz"
                      ∷ text "log_level"
                      ∷ text "rpm_limit"
                      ∷ text "temp_limit_c"
                      ∷ text "current_limit_a"
                      ∷ [])
                    params))
              >>> λ c.
                  when_so
                    ((action === text "firmware_register") || (action === text "firmware_deploy"))
                    (require (is_text (get (text "version") params)))
                  >>> λ e.
                      when_so (action === text "cmd") (
                        require (
                          one_of (text "reboot" ∷ text "clear_faults" ∷ text "request_hello" ∷ [])
                            (get (text "cmd") params)))
                      >>> λ f. when_so (action === text "proxy_set") (require proxied)

  -- Whether a time is above zero or equal to it.
  abbrev pub not_before : Float → Bool
  not_before x = fl.le (fl.of_ℕ 0) x

  -- `ev.get("device") in ids`
  unfoldable pub device_known : List Text → Fields → Checked (Unit {0})
  unfolding in_set
  device_known ids d =
      in_set ids (or_value (get (text "device") d) Value.null) >>> λ known. require known

  -- `isinstance(ev.get("say", ""), str)`, and for a note a text that is not empty.
  unfoldable pub check_say : Text → Value → Checked (Unit {0})
  check_say action (Value.string []) = require (not (action === text "note"))
  check_say action (Value.string (c ∷ s)) = passed tt
  check_say action v = schema_error

  -- The text of a number, the only value that it is asked of.
  unfoldable pub str_num : Value → Text
  str_num (Value.int (ℤ.pos n)) = str_int n
  str_num (Value.int (ℤ.negsuc n)) = text "-" ++ str_int (suc n)
  str_num (Value.float x) = fl.str x
  str_num v = []

  -- The warning of an entry of a list that lies after the scenario's end.
  unfoldable pub late_warning : Text → ℕ → Value → Text
  unfolding str_num
  late_warning list i at =
      list
      ++ (text "["
          ++ (str_int i ++ (text "] at_s " ++ (str_num at ++ text " is after duration_s"))))

  -- An event, with its place in the list: its action, and the warning if it lies after the end.
  unfoldable pub check_event : ℕ → List Text → Float → Bool → Value → Checked (Text × List Text)
  unfolding check_params params_of check_say device_known in_set late_warning
  check_event i ids duration proxied v = required (as_mapping v) >>> λ ev.
      required (get (text "at_s") ev) >>> λ at. required (get (text "action") ev) >>> λ named.
      required (as_num at) >>> λ time. require (not_before time) >>> λ a.
      in_set actions named >>> λ known. require known >>> λ b.
      required (as_text named) >>> λ action. params_of ev >>> λ params.
      check_say action (or_value (get (text "say") ev) (Value.string [])) >>> λ c.
      when_so (has action device_actions) (device_known ids ev) >>> λ e.
      check_params proxied action params >>> λ f.
      passed (action, if fl.lt duration time then late_warning (text "timeline") i at ∷ [] else [])

  -- The events in their order, from a place on; the result is the warnings.
  unfoldable pub check_timeline : ℕ → List Text → Float → Bool → Values → Checked (List Text)
  unfolding check_event
  check_timeline i ids duration proxied Values.end = passed []
  check_timeline i ids duration proxied (Values.item v vs) =
      check_event i ids duration proxied v >>> λ (action, w).
      check_timeline (i + 1) ids duration proxied vs >>> λ ws. passed (w ++ ws)
