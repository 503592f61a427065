-- ===== src/Examples/Scenarios.antt =====
-- An example of a scenario that is accepted.
use ecu_telemetry.Prelude.{ℕ, ◌≡◌, refl, [], ◌∷◌}
use ecu_telemetry.Python.Text.{text, ◌===◌, split}
use ecu_telemetry.Python.Decimal.{ℤ}
use ecu_telemetry.Python.Sets.{has}
use ecu_telemetry.Scenario.Values.{
  passed, Value, Values, Fields, require, get, has_key, truthy, as_int, float_of, as_num, as_text,
  as_mapping,
}
use ecu_telemetry.Scenario.Faults.{cut_at, numbers, spec_times, spec_parts, parse_fault_spec}
use ecu_telemetry.Scenario.Devices.{
  all_ascii, is_device_id, all_digits, is_number, all_numbers, known_profile, is_version,
  check_spec, check_items, check_keys, check_faults, is_full_text, is_sequence, check_remote,
  check_id, check_fields, check_device, check_devices,
}
use ecu_telemetry.Scenario.Timeline.{
  in_set, params_of, is_text, list_of, known_faults, all_keys, one_of, check_params, device_known,
  check_say, check_event, check_timeline,
}
use ecu_telemetry.Scenario.Expect.{
  is_state, all_states, all_key_states, check_state, is_num, check_asked, check_expected,
  check_expect,
}
use ecu_telemetry.Scenario.Validate.{
  Accepted, port, check_backend, rate, check_proxy, as_list, is_present, full_text, check_lists,
  check_head, validate_scenario,
}
use ecu_telemetry.Scenario.Runnable.{IsRunnable, validate_scenario-IsRunnable}
use ecu_telemetry.Examples.{two, device}

abbrev number : ℕ → Value
number n = Value.int (ℤ.pos n)

abbrev backend : Value
backend = Value.mapping (
    Fields.field (text "http") (Value.string (text "http://h")) (
      Fields.field (text "udp_port") (number 8781)
        (Fields.field (text "tcp_port") (number 8782) Fields.empty)))

abbrev reboot : Value
reboot = Value.mapping (
    Fields.field (text "at_s") (number 5) (
      Fields.field (text "action") (Value.string (text "cmd")) (
        Fields.field (text "device") (Value.string device) (
          Fields.field (text "params")
            (Value.mapping (Fields.field (text "cmd") (Value.string (text "reboot")) Fields.empty))
            Fields.empty))))

abbrev quiet : Value
quiet = Value.mapping (
    Fields.field (text "at_s") (number 9) (
      Fields.field (text "check") (Value.string (text "config_version"))
        (Fields.field (text "device") (Value.string device) Fields.empty)))

abbrev scenario : Value
scenario = Value.mapping (
    Fields.field (text "name") (Value.string (text "s")) (
      Fields.field (text "description") Value.null (
        Fields.field (text "duration_s") (number 60) (
          Fields.field (text "backend") backend (
            Fields.field (text "devices")
              (Value.sequence (
                Values.item
                  (Value.mapping (Fields.field (text "id") (Value.string device) Fields.empty))
                  Values.end))
              (Fields.field (text "timeline") (Value.sequence (Values.item reboot Values.end)) (
                Fields.field (text "expect") (Value.sequence (Values.item quiet Values.end))
                  Fields.empty)))))))

abbrev accepted : Accepted
accepted = record { ids = device ∷ []; warnings = [] }

scenario-passed : validate_scenario scenario ≡ passed accepted
unfolding require get has_key truthy as_int float_of as_num as_text as_mapping cut_at numbers
    spec_times spec_parts parse_fault_spec all_ascii is_device_id all_digits is_number all_numbers
    known_profile is_version check_spec check_items check_keys check_faults is_full_text is_sequence
    check_remote check_id check_fields check_device check_devices in_set params_of is_text list_of
    known_faults all_keys one_of check_params device_known check_say check_event check_timeline
    is_state all_states all_key_states check_state is_num check_asked check_expected check_expect
    port check_backend rate check_proxy as_list is_present full_text check_lists check_head
    validate_scenario has ◌===◌ split
scenario-passed = refl

validate_scenario-IsRunnable_example : IsRunnable scenario accepted
validate_scenario-IsRunnable_example =
    validate_scenario-IsRunnable scenario accepted scenario-passed
