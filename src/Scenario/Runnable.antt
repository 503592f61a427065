-- ===== src/Scenario/Runnable.antt =====
-- What the runner of sim/run_sil.py may rely on once validate_scenario has accepted a scenario.
use mathlib.Core.Path.{subst}
use ecu_telemetry.Prelude.{◌≤◌, ◌≡◌, refl, sym, ap, ◌∙◌, Option, none, some, List, [], All, arith}
use ecu_telemetry.Python.Floats.{Floats}
use ecu_telemetry.Python.Text.{Text, text}
use ecu_telemetry.Python.Sets.{IsDistinct}
use ecu_telemetry.Scenario.Values.{passed, Value, Values, Fields, get, as_num, as_mapping}
use ecu_telemetry.Scenario.Devices.{required, check_devices}
use ecu_telemetry.Scenario.Accepted.{
  IsDeviceId, chain-passed, require-passed, passed-eq, check_devices-IsDeviceId, size,
  required-passed, all_some, onto, ids_of,
}
use ecu_telemetry.Scenario.Timeline.{check_timeline, list_of, all_keys}
use ecu_telemetry.Scenario.Expect.{check_expect}
use ecu_telemetry.Scenario.Validate.{
  top_keys, Accepted, check_head, check_lists, check_backend, check_proxy, validate_scenario,
  as_list, is_present, full_text,
}
use ecu_telemetry.Scenario.Sound.{AllEvents, check_timeline-AllEvents}

module _ ⦃fl : Floats⦄ where
  open fl use {Float}

  list_of-passed :
      (o : Option Value) (vs : Values)
      → list_of o ≡ passed vs
      → (o ≡ some (Value.sequence vs)) × (1 ≤ size vs)
  unfolding list_of
  list_of-passed none vs h = ground arith
  list_of-passed (some (Value.sequence (Values.item w ws))) vs h =
      subst
        (λ (x : Values).
          (some (Value.sequence (Values.item w ws)) ≡ some (Value.sequence x)) × (1 ≤ size x))
        (passed-eq (Values.item w ws) vs h) (refl, omega arith)
  list_of-passed (some (Value.sequence Values.end)) vs h = ground arith
  list_of-passed (some Value.null) vs h = ground arith
  list_of-passed (some (Value.boolean b)) vs h = ground arith
  list_of-passed (some (Value.int n)) vs h = ground arith
  list_of-passed (some (Value.float x)) vs h = ground arith
  list_of-passed (some (Value.string s)) vs h = ground arith
  list_of-passed (some (Value.mapping d)) vs h = ground arith

  as_list-passed : (v : Value) (vs : Values) → as_list v ≡ some vs → v ≡ Value.sequence vs
  unfolding as_list
  as_list-passed (Value.sequence ws) vs h = ap Value.sequence (ground arith)
  as_list-passed Value.null vs h = ground arith
  as_list-passed (Value.boolean b) vs h = ground arith
  as_list-passed (Value.int n) vs h = ground arith
  as_list-passed (Value.float x) vs h = ground arith
  as_list-passed (Value.string s) vs h = ground arith
  as_list-passed (Value.mapping d) vs h = ground arith

  check_head-mapping :
      (v : Value) (sc : Fields) (duration : Float)
      → check_head v ≡ passed (sc, duration)
      → as_mapping v ≡ some sc
  unfolding check_head
  check_head-mapping v sc duration h =
      let r : Fields × Float = (sc, duration) in
      let (sc', e0, h0) = chain-passed (required (as_mapping v)) _ r h in
      let (a, h1) = require-passed (all_keys top_keys sc') _ r h0 in
      let (name, e2, h2) = chain-passed (required (get (text "name") sc')) _ r h1 in
      let (b, h3) = require-passed (full_text name) _ r h2 in
      let (d, e4, h4) = chain-passed (required (get (text "duration_s") sc')) _ r h3 in
      let (dur, e5, h5) = chain-passed (required (as_num d)) _ r h4 in
      let (c, h6) = require-passed (fl.lt (fl.of_ℕ 0) dur) _ r h5 in
      let (be, e7, h7) = chain-passed (required (get (text "backend") sc')) _ r h6 in
      let (x, e8, h8) = chain-passed (check_backend be) _ r h7 in
      let (y, e9, h9) = chain-passed (check_proxy (get (text "proxy") sc')) _ r h8 in
      required-passed (as_mapping v) sc' e0
      ∙ ap (λ (p : Fields × Float). some (p.0)) (passed-eq (sc', dur) r h9)

  -- The scenario has at least one device, each device is a mapping whose id field is a text, and the
  -- ids are these texts, the last device's first; each is one to twelve ASCII characters and no two
  -- are equal; and each event is a mapping with a known action, whose device field is one of the ids
  -- if the action is one of a device.
  pub record IsRunnable (v : Value) (acc : Accepted) : Type 0 where
    pub sc : Fields
    pub devs : Values
    pub events : Values
    pub is_mapping : as_mapping v ≡ some sc
    pub devices : get (text "devices") sc ≡ some (Value.sequence devs)
    pub timeline : get (text "timeline") sc ≡ some (Value.sequence events)
    pub fit : All IsDeviceId acc.ids
    pub distinct : IsDistinct acc.ids
    pub named : all_some acc.ids ≡ onto (ids_of devs) []
    pub some_device : 1 ≤ size devs
    pub addressed : AllEvents acc.ids events

  -- A scenario that validate_scenario accepts has at least one device; each device is a mapping whose
  -- id field is a text of one to twelve ASCII characters, and no two of these are equal; and each event
  -- of its timeline is a mapping with a known action, whose device field is the id of one of the devices
  -- if the action is one of a device.
  pub validate_scenario-IsRunnable :
      (v : Value) (acc : Accepted) → validate_scenario v ≡ passed acc → IsRunnable v acc
  unfolding validate_scenario check_lists
  validate_scenario-IsRunnable v acc h =
      let ((sc, duration), e0, h0) = chain-passed (check_head v) _ acc h in
      let proxied = is_present (get (text "proxy") sc) in
      let (devs, e1, h1) = chain-passed (list_of (get (text "devices") sc)) _ acc h0 in
      let ((ids, ws), e2, h2) = chain-passed (check_devices [] duration proxied devs) _ acc h1 in
      let (tl, e3, h3) = chain-passed (required (get (text "timeline") sc)) _ acc h2 in
      let (events, e4, h4) = chain-passed (required (as_list tl)) _ acc h3 in
      let (n, e5, h5) = chain-passed (check_timeline 0 ids duration proxied events) _ acc h4 in
      let (ex, e6, h6) = chain-passed (list_of (get (text "expect") sc)) _ acc h5 in
      let (m, e7, h7) = chain-passed (check_expect 0 ids duration ex) _ acc h6 in
      let (is_list, one) = list_of-passed (get (text "devices") sc) devs e1 in
      let (fit, apart, named) = check_devices-IsDeviceId ids duration proxied devs ws e2 in
      let same : ids ≡ acc.ids = ap (λ (a : Accepted). a.ids) (passed-eq _ acc h7) in
      record {
        sc = sc;
        devs = devs;
        events = events;
        is_mapping = check_head-mapping v sc duration e0;
        devices = is_list;
        timeline =
            required-passed (get (text "timeline") sc) tl e3
            ∙ ap (λ (w : Value). some w)
                (as_list-passed tl events (required-passed (as_list tl) events e4));
        fit = subst (λ (l : List Text). All IsDeviceId l) same fit;
        distinct = subst (λ (l : List Text). IsDistinct l) same apart;
        named = ap all_some (sym same) ∙ named;
        some_device = one;
        addressed =
            subst (λ (l : List Text). AllEvents l events) same
              (check_timeline-AllEvents 0 ids duration proxied events n e5);
      }
