-- ===== src/Scenario/Faults.antt =====
-- parse_fault_spec of sim/run_sil.py.
use ecu_telemetry.Prelude.{ℕ, Option, none, some, List, [], ◌∷◌, ◌==◌, if◌then◌else◌}
use ecu_telemetry.Python.Floats.{Floats}
use ecu_telemetry.Python.Text.{Text, text}
use ecu_telemetry.Python.Sets.{has}
use ecu_telemetry.Scenario.Values.{Checked, passed, schema_error, ◌>>>◌, require}

-- FAULT_NAMES
abbrev pub fault_names : List Text
fault_names =
    text "OVERTEMP"
    ∷ text "OVERCURRENT"
    ∷ text "UNDERVOLTAGE"
    ∷ text "VIBRATION_HIGH"
    ∷ text "SENSOR_STUCK"
    ∷ text "GPS_LOST"
    ∷ text "COMM_DEGRADED"
    ∷ text "ENCODER_FAULT"
    ∷ []

abbrev before : ℕ → Option (Text × Text) → Option (Text × Text)
before c none = none
before c (some (a, b)) = some (c ∷ a, b)

-- s.split(sep, 1): the parts around the first separator, if there is one.
unfoldable pub cut_at : ℕ → Text → Option (Text × Text)
cut_at sep [] = none
cut_at sep (c ∷ s) = let rest = cut_at sep s in if c == sep then some ([], s) else before c rest

module _ ⦃fl : Floats⦄ where
  open fl use {Float}

  -- float(start) and float(dur), a ValueError being a SchemaError.
  unfoldable pub numbers : Text → Option Float → Option Float → Checked (Text × Float × Float)
  numbers name (some start) (some dur) = passed (name, start, dur)
  numbers name start dur = schema_error

  unfoldable pub spec_times : Text → Option (Text × Text) → Checked (Text × Float × Float)
  unfolding numbers require
  spec_times name none = schema_error
  spec_times name (some (start, dur)) =
      require (has name fault_names) >>> λ x. numbers name (fl.parse start) (fl.parse dur)

  unfoldable pub spec_parts : Option (Text × Text) → Checked (Text × Float × Float)
  unfolding spec_times
  spec_parts none = schema_error
  spec_parts (some (name, rest)) = spec_times name (cut_at b':' rest)

  unfoldable pub parse_fault_spec : Text → Checked (Text × Float × Float)
  unfolding spec_parts
  parse_fault_spec spec = spec_parts (cut_at b'@' spec)
