-- ===== src/Scenario/Sound.antt =====
-- What a scenario that validate_scenario of sim/run_sil.py accepts has.
use mathlib.Core.Path.{subst}
use ecu_telemetry.Prelude.{
  ℕ, ◌+◌, ◌≡◌, refl, ap, ◌∙◌, Bool, true, false, not, ◌||◌, Option, none, some, List, [], arith,
}
use ecu_telemetry.Python.Floats.{Floats}
use ecu_telemetry.Python.Text.{Text, text}
use ecu_telemetry.Python.Sets.{has}
use ecu_telemetry.Scenario.Values.{
  passed, require, Value, Values, Fields, get, or_value, as_num, as_text, as_mapping,
}
use ecu_telemetry.Scenario.Devices.{required}
use ecu_telemetry.Scenario.Accepted.{required-passed, chain-passed, require-passed, passed-eq}
use ecu_telemetry.Scenario.Timeline.{
  actions, device_actions, in_set, params_of, when_so, not_before, device_known, check_say, one_of,
  check_event, check_timeline,
}

module _ ⦃fl : Floats⦄ where
  open fl use {Float}

  -- An event is a mapping whose action is known, and which names one of the devices if the action
  -- is one of a device.
  pub record IsAddressed (ids : List Text) (v : Value) : Type 0 where
    pub event : Fields
    pub action : Text
    pub is_mapping : as_mapping v ≡ some event
    pub named : get (text "action") event ≡ some (Value.string action)
    pub known : has action actions ≡ true
    pub addressed :
        (not (has action device_actions) || one_of ids (get (text "device") event)) ≡ true

  abbrev pub AllEvents : List Text → Values → Type 0
  AllEvents ids Values.end = Unit {0}
  AllEvents ids (Values.item v vs) = IsAddressed ids v × AllEvents ids vs

  as_text-passed : (v : Value) (s : Text) → as_text v ≡ some s → v ≡ Value.string s
  unfolding as_text
  as_text-passed (Value.string t) s h = ap Value.string (ground arith)
  as_text-passed Value.null s h = ground arith
  as_text-passed (Value.boolean b) s h = ground arith
  as_text-passed (Value.int n) s h = ground arith
  as_text-passed (Value.float x) s h = ground arith
  as_text-passed (Value.sequence vs) s h = ground arith
  as_text-passed (Value.mapping d) s h = ground arith

  in_set-string :
      (names : List Text) (s : Text) (b : Bool)
      → in_set names (Value.string s) ≡ passed b
      → has s names ≡ b
  unfolding in_set
  in_set-string names s b h = passed-eq (has s names) b h

  in_set-one_of :
      (ids : List Text) (o : Option Value)
      → in_set ids (or_value o Value.null) ≡ passed true
      → one_of ids o ≡ true
  unfolding in_set one_of
  in_set-one_of ids none h = ground arith
  in_set-one_of ids (some (Value.string s)) h = passed-eq (has s ids) true h
  in_set-one_of ids (some Value.null) h = ground arith
  in_set-one_of ids (some (Value.boolean b)) h = ground arith
  in_set-one_of ids (some (Value.int n)) h = ground arith
  in_set-one_of ids (some (Value.float x)) h = ground arith
  in_set-one_of ids (some (Value.sequence vs)) h = ground arith
  in_set-one_of ids (some (Value.mapping d)) h = ground arith

  require-true : (c : Bool) (x : Unit {0}) → require c ≡ passed x → c ≡ true
  unfolding require
  require-true true x h = refl
  require-true false x h = ground arith

  device_known-one_of :
      (ids : List Text) (ev : Fields) (x : Unit {0})
      → device_known ids ev ≡ passed x
      → one_of ids (get (text "device") ev) ≡ true
  unfolding device_known require
  device_known-one_of ids ev x h =
      let (known, e, h1) =
        chain-passed (in_set ids (or_value (get (text "device") ev) Value.null)) _ x h in
      in_set-one_of ids (get (text "device") ev)
        (e ∙ ap (λ (b : Bool). passed b) (require-true known x h1))

  addressed_if :
      (b : Bool) (ids : List Text) (ev : Fields) (x : Unit {0})
      → when_so b (device_known ids ev) ≡ passed x
      → (not b || one_of ids (get (text "device") ev)) ≡ true
  addressed_if true ids ev x h = device_known-one_of ids ev x h
  addressed_if false ids ev x h = refl

  check_event-IsAddressed :
      (i : ℕ) (ids : List Text) (duration : Float) (proxied : Bool) (v : Value)
      (r : Text × List Text)
      → check_event i ids duration proxied v ≡ passed r
      → IsAddressed ids v
  unfolding check_event
  check_event-IsAddressed i ids duration proxied v r h =
      let (ev, e0, h0) = chain-passed (required (as_mapping v)) _ r h in
      let (at, e1, h1) = chain-passed (required (get (text "at_s") ev)) _ r h0 in
      let (named, e2, h2) = chain-passed (required (get (text "action") ev)) _ r h1 in
      let (time, e3, h3) = chain-passed (required (as_num at)) _ r h2 in
      let (a, h4) = require-passed (not_before time) _ r h3 in
      let (known, e5, h5) = chain-passed (in_set actions named) _ r h4 in
      let (b, h6) = require-passed known _ r h5 in
      let (action, e7, h7) = chain-passed (required (as_text named)) _ r h6 in
      let (params, e8, h8) = chain-passed (params_of ev) _ r h7 in
      let (c, e9, h9) =
        chain-passed (check_say action (or_value (get (text "say") ev) (Value.string []))) _ r h8 in
      let (d, e10, h10) =
        chain-passed (when_so (has action device_actions) (device_known ids ev)) _ r h9 in
      let is_text : named ≡ Value.string action =
        as_text-passed named action (required-passed (as_text named) action e7) in
      record {
        event = ev;
        action = action;
        is_mapping = required-passed (as_mapping v) ev e0;
        named =
            required-passed (get (text "action") ev) named e2 ∙ ap (λ (w : Value). some w) is_text;
        known =
            in_set-string actions action known
              (subst (λ (w : Value). in_set actions w ≡ passed known) is_text e5)
            ∙ b;
        addressed = addressed_if (has action device_actions) ids ev d e10;
      }

  -- Where the check of a timeline passes, every event is a mapping with a known action, and names one
  -- of the devices if the action is one of a device.
  pub check_timeline-AllEvents :
      (i : ℕ) (ids : List Text) (duration : Float) (proxied : Bool) (vs : Values) (n : List Text)
      → check_timeline i ids duration proxied vs ≡ passed n
      → AllEvents ids vs
  unfolding check_timeline
  check_timeline-AllEvents i ids duration proxied Values.end n h = tt
  check_timeline-AllEvents i ids duration proxied (Values.item v vs) n h =
      let (r, e, h1) = chain-passed (check_event i ids duration proxied v) _ n h in
      let (m, e1, h2) = chain-passed (check_timeline (i + 1) ids duration proxied vs) _ n h1 in
      (
        check_event-IsAddressed i ids duration proxied v r e,
        check_timeline-AllEvents (i + 1) ids duration proxied vs m e1,
      )
