-- ===== src/Scenario/Validate.antt =====
-- validate_scenario of sim/run_sil.py.
use ecu_telemetry.Prelude.{
  Bool, true, false, ◌&&◌, Option, none, some, List, [], ◌∷◌, ◌++◌, take, ltb,
}
use ecu_telemetry.Python.Floats.{Floats}
use ecu_telemetry.Python.Text.{Text, text, ◌===◌}
use ecu_telemetry.Python.Decimal.{ℤ}
use ecu_telemetry.Scenario.Values.{
  Checked, passed, ◌>>>◌, require, Value, Values, Fields, get, as_int, as_num, as_text, as_mapping,
}
use ecu_telemetry.Scenario.Devices.{required, check_devices}
use ecu_telemetry.Scenario.Timeline.{check_timeline, list_of, all_keys}
use ecu_telemetry.Scenario.Expect.{check_expect}

abbrev pub top_keys : List Text
top_keys =
    text "name"
    ∷ text "description"
    ∷ text "duration_s"
    ∷ text "backend"
    ∷ text "devices"
    ∷ text "timeline"
    ∷ text "expect"
    ∷ []

module _ ⦃fl : Floats⦄ where
  open fl use {Float}

  -- `0 < x < 65536`
  abbrev is_port : ℤ → Bool
  is_port (ℤ.pos n) = ltb 0 n && ltb n 65_536
  is_port (ℤ.negsuc n) = false

  -- A key whose value is an int.
  unfoldable pub port : Text → Fields → Checked (Unit {0})
  port k d = required (get k d) >>> λ v. required (as_int v) >>> λ n. require (is_port n)

  -- The backend's URL and ports.
  unfoldable pub check_backend : Value → Checked (Unit {0})
  unfolding port all_keys
  check_backend v = required (as_mapping v) >>> λ be.
      require (all_keys (text "http" ∷ text "udp_port" ∷ text "tcp_port" ∷ []) be) >>> λ a.
      required (get (text "http") be) >>> λ url. required (as_text url) >>> λ http.
      require (take 4 http === text "http") >>> λ b.
      port (text "udp_port") be >>> λ c. port (text "tcp_port") be

  -- A rate between 0 and 1, if the key is there.
  unfoldable pub rate : Option Value → Checked (Unit {0})
  rate none = passed tt
  rate (some v) = required (as_num v) >>> λ x. require (fl.le (fl.of_ℕ 0) x && fl.le x (fl.of_ℕ 1))

  -- The optional block of the proxy.
  unfoldable pub check_proxy : Option Value → Checked (Unit {0})
  unfolding rate
  check_proxy none = passed tt
  check_proxy (some v) = required (as_mapping v) >>> λ px.
      required (get (text "listen") px) >>> λ l. required (as_int l) >>> λ n.
      rate (get (text "drop") px) >>> λ a.
      rate (get (text "reorder") px) >>> λ b. rate (get (text "dup") px)

  unfoldable pub as_list : Value → Option Values
  as_list (Value.sequence vs) = some vs
  as_list v = none

  unfoldable pub is_present : Option Value → Bool
  is_present none = false
  is_present (some v) = true

  unfoldable pub full_text : Value → Bool
  full_text (Value.string (c ∷ s)) = true
  full_text v = false

  -- What the function has when a scenario is accepted: `ids`, the latest first, and the warnings that
  -- it returns.
  pub record Accepted : Type 0 where
    pub ids : List Text
    pub warnings : List Text

  -- The lists, when the head has passed.
  unfoldable pub check_lists : Float → Fields → Checked Accepted
  unfolding as_list is_present list_of
  check_lists duration sc =
      let proxied = is_present (get (text "proxy") sc) in
      list_of (get (text "devices") sc) >>> λ devs.
      check_devices [] duration proxied devs >>> λ (ids, ws).
      required (get (text "timeline") sc) >>> λ tl. required (as_list tl) >>> λ events.
      check_timeline 0 ids duration proxied events >>> λ late.
      list_of (get (text "expect") sc) >>> λ ex. check_expect 0 ids duration ex >>> λ late'.
      passed (record { ids = ids; warnings = ws ++ (late ++ late') })

  -- The top-level keys, up to the devices.
  unfoldable pub check_head : Value → Checked (Fields × Float)
  unfolding check_backend check_proxy full_text all_keys
  check_head v = required (as_mapping v) >>> λ sc. require (all_keys top_keys sc) >>> λ a.
      required (get (text "name") sc) >>> λ name. require (full_text name) >>> λ b.
      required (get (text "duration_s") sc) >>> λ d. required (as_num d) >>> λ duration.
      require (fl.lt (fl.of_ℕ 0) duration) >>> λ c. required (get (text "backend") sc) >>> λ be.
      check_backend be >>> λ e. check_proxy (get (text "proxy") sc) >>> λ f. passed (sc, duration)

  unfoldable pub validate_scenario : Value → Checked Accepted
  unfolding check_head check_lists
  validate_scenario v = check_head v >>> λ (sc, duration). check_lists duration sc
