-- ===== src/Scenario/Devices.antt =====
-- The part of validate_scenario of sim/run_sil.py that reads the devices.
use ecu_telemetry.Prelude.{
  Bool, true, false, not, ◌&&◌, Option, none, some, List, [], ◌∷◌, ◌++◌, length, ltb, leb, ◌==◌,
  if◌then◌else◌,
}
use ecu_telemetry.Python.Floats.{Floats}
use ecu_telemetry.Python.Text.{Text, text, split}
use ecu_telemetry.Python.Decimal.{ℤ}
use ecu_telemetry.Python.Sets.{has}
use ecu_telemetry.Scenario.Values.{
  Checked, passed, schema_error, other_error, ◌>>>◌, require, Value, Values, Fields, get, or_value,
  truthy, as_int, as_num, as_text, as_mapping,
}
use ecu_telemetry.Scenario.Faults.{parse_fault_spec}

-- PROFILES
abbrev pub profiles : List Text
profiles = text "city" ∷ text "highway" ∷ text "idle" ∷ text "stress" ∷ []

-- `_require` of a value that is there.
abbrev pub required : {A : Type 0} → Option A → Checked A
required none = schema_error
required (some a) = passed a

unfoldable pub all_ascii : Text → Bool
all_ascii [] = true
all_ascii (c ∷ s) = ltb c 128 && all_ascii s

-- `0 < len(did) <= 12 and did.isascii()`
unfoldable pub is_device_id : Text → Bool
unfolding all_ascii
is_device_id did = ltb 0 (length did) && (leb (length did) 12 && all_ascii did)

-- p.isdigit(), on ASCII
unfoldable pub all_digits : Text → Bool
all_digits [] = true
all_digits (c ∷ s) = leb b'0' c && (leb c b'9' && all_digits s)

unfoldable pub is_number : Text → Bool
unfolding all_digits
is_number [] = false
is_number (c ∷ s) = all_digits (c ∷ s)

unfoldable pub all_numbers : List Text → Bool
unfolding is_number
all_numbers [] = true
all_numbers (p ∷ ps) = is_number p && all_numbers ps

module _ ⦃fl : Floats⦄ where
  open fl use {Float}

  -- `x in PROFILES`; a sequence or a mapping has no hash.
  unfoldable pub known_profile : Value → Checked Bool
  known_profile (Value.string s) = passed (has s profiles)
  known_profile (Value.sequence vs) = other_error
  known_profile (Value.mapping d) = other_error
  known_profile v = passed false

  -- The test of str(d.get("fw")): no other value's text has three parts of digits.
  unfoldable pub is_version : Value → Bool
  unfolding all_numbers
  is_version (Value.string s) = let parts = split b'.' s in (length parts == 3) && all_numbers parts
  is_version v = false

  abbrev in_hz : ℤ → Bool
  in_hz (ℤ.pos n) = leb 1 n && leb n 100
  in_hz (ℤ.negsuc n) = false

  abbrev in_unit : Float → Bool
  in_unit x = fl.le (fl.of_ℕ 0) x && fl.le x (fl.of_ℕ 1)

  -- One spec of the faults: a warning if it ends after the scenario.
  unfoldable pub check_spec : Text → Float → Value → Checked (List Text)
  check_spec did duration (Value.string spec) = parse_fault_spec spec >>> λ (name, start, dur).
      passed (
        if fl.lt duration (fl.add start dur)
        then (did ++ (text ": fault " ++ (spec ++ text " extends past duration_s"))) ∷ []
        else [])
  check_spec did duration v = schema_error

  unfoldable pub check_items : Text → Float → Values → Checked (List Text)
  unfolding check_spec
  check_items did duration Values.end = passed []
  check_items did duration (Values.item v vs) =
      check_spec did duration v >>> λ w. check_items did duration vs >>> λ ws. passed (w ++ ws)

  -- A mapping in place of the list is read key by key.
  unfoldable pub check_keys : Text → Float → Fields → Checked (List Text)
  unfolding check_spec
  check_keys did duration Fields.empty = passed []
  check_keys did duration (Fields.field k v d) = check_spec did duration (Value.string k) >>> λ w.
      check_keys did duration d >>> λ ws. passed (w ++ ws)

  -- `for spec in d.get("faults", []) or []`; a text is read character by character, and the first is
  -- no spec.
  unfoldable pub check_faults : Text → Float → Value → Checked (List Text)
  unfolding check_items check_keys truthy
  check_faults did duration (Value.sequence vs) = check_items did duration vs
  check_faults did duration (Value.mapping d) = check_keys did duration d
  check_faults did duration (Value.string (c ∷ s)) = schema_error
  check_faults did duration v = if truthy v then other_error else passed []

  unfoldable pub is_full_text : Option Value → Bool
  is_full_text (some (Value.string (c ∷ s))) = true
  is_full_text v = false

  unfoldable pub is_sequence : Value → Bool
  is_sequence (Value.sequence vs) = true
  is_sequence v = false

  -- The keys of `remote`.
  unfoldable pub check_remote : Bool → Option Value → Checked (Unit {0})
  unfolding is_full_text is_sequence
  check_remote via none = passed tt
  check_remote via (some v) = required (as_mapping v) >>> λ rm.
      require (
        is_full_text (get (text "ssh") rm)
        && (is_full_text (get (text "agent") rm) && is_full_text (get (text "backend_host") rm)))
      >>> λ x.
          require (is_sequence (or_value (get (text "extra") rm) (Value.sequence Values.end)))
          >>> λ y. require (not via)

  -- The id of a device, which no earlier device has.
  unfoldable pub check_id : List Text → Fields → Checked Text
  check_id ids d = required (get (text "id") d) >>> λ v. required (as_text v) >>> λ did.
      require (is_device_id did) >>> λ x. require (not (has did ids)) >>> λ y. passed did

  -- What is checked of a device once its id is known.
  unfoldable pub check_fields : Text → Float → Bool → Fields → Checked (List Text)
  unfolding known_profile is_version check_faults check_remote
  check_fields did duration proxied d =
      let via = truthy (or_value (get (text "via_proxy") d) Value.null) in
      known_profile (or_value (get (text "profile") d) (Value.string (text "city"))) >>> λ p.
      require p >>> λ a.
      require (is_version (or_value (get (text "fw") d) (Value.string (text "1.0.0")))) >>> λ b.
      required (as_int (or_value (get (text "hz") d) (Value.int (ℤ.pos 10)))) >>> λ hz.
      require (in_hz hz) >>> λ c.
      required (as_num (or_value (get (text "drop_rate") d) (Value.float (fl.of_ℕ 0)))) >>> λ rate.
      require (in_unit rate) >>> λ e.
      required (as_int (or_value (get (text "seed") d) (Value.int (ℤ.pos 1)))) >>> λ seed.
      check_faults did duration (or_value (get (text "faults") d) (Value.sequence Values.end))
      >>> λ ws. check_remote via (get (text "remote") d) >>> λ f. passed (
          ws
          ++ (if via && not proxied
              then (did
                  ++ text
                      ": via_proxy set but scenario has no 'proxy' block (needs --via-proxy/--proxy-port)")
                ∷ []
              else []))

  unfoldable pub check_device : List Text → Float → Bool → Value → Checked (Text × List Text)
  check_device ids duration proxied v = required (as_mapping v) >>> λ d.
      check_id ids d >>> λ did. check_fields did duration proxied d >>> λ ws. passed (did, ws)

  -- The loop over the devices: the ids, the latest first, and the warnings.
  unfoldable pub check_devices : List Text → Float → Bool → Values → Checked (List Text × List Text)
  unfolding check_device
  check_devices ids duration proxied Values.end = passed (ids, [])
  check_devices ids duration proxied (Values.item v vs) =
      check_device ids duration proxied v >>> λ (did, w).
      check_devices (did ∷ ids) duration proxied vs >>> λ (all, ws). passed (all, w ++ ws)
