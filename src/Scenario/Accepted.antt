-- ===== src/Scenario/Accepted.antt =====
-- The ids of the devices of a scenario that validate_scenario of sim/run_sil.py accepts.
use ecu_telemetry.Prelude.{
  ℕ, suc, ◌≤◌, ◌<◌, ◌≡◌, refl, ap, Bool, true, false, not, List, [], ◌∷◌, length, All, arith,
  Option, none, some, sym, ◌∙◌, map,
}
use mathlib.Core.Path.{subst}
use ecu_telemetry.Python.Floats.{Floats}
use ecu_telemetry.Python.Text.{Text, text}
use ecu_telemetry.Python.Sets.{has, IsDistinct}
use ecu_telemetry.Scenario.Values.{
  Checked, passed, schema_error, other_error, ◌>>>◌, require, Value, Values, Fields, get, as_text,
  as_mapping,
}
use ecu_telemetry.Scenario.Devices.{
  required, all_ascii, is_device_id, check_id, check_fields, check_device, check_devices,
}

-- One to twelve ASCII characters.
abbrev pub IsDeviceId : Text → Type 0
IsDeviceId s = (1 ≤ length s) × (length s ≤ 12) × All (λ c. c < 128) s

all_ascii-All : (s : Text) → all_ascii s ≡ true → All (λ c. c < 128) s
unfolding all_ascii
all_ascii-All [] h = tt
all_ascii-All (c ∷ s) h = (ground (arith, h), all_ascii-All s (ground (arith, h)))

is_device_id-IsDeviceId : (s : Text) → is_device_id s ≡ true → IsDeviceId s
unfolding is_device_id
is_device_id-IsDeviceId s h =
    (ground (arith, h), ground (arith, h), all_ascii-All s (ground (arith, h)))

-- A chain of checks that passes has passed at its first.
pub chain-passed :
    {A B : Type 0} (x : Checked A) (f : A → Checked B) (b : B)
    → (x >>> f) ≡ passed b
    → (a : A) × (x ≡ passed a) × (f a ≡ passed b)
chain-passed (passed a) f b h = (a, refl, h)
chain-passed schema_error f b h = ground arith
chain-passed other_error f b h = ground arith

pub require-passed :
    {B : Type 0} (c : Bool) (f : Unit {0} → Checked B) (b : B)
    → (require c >>> f) ≡ passed b
    → (c ≡ true) × (f tt ≡ passed b)
unfolding require
require-passed true f b h = (refl, h)
require-passed false f b h = ground arith

pub passed-eq : {A : Type 0} (a b : A) → passed a ≡ passed b → a ≡ b
passed-eq a b h = ground arith

pub required-passed : {A : Type 0} (o : Option A) (a : A) → required o ≡ passed a → o ≡ some a
required-passed none a h = ground arith
required-passed (some b) a h = ap some (passed-eq b a h)

module _ ⦃fl : Floats⦄ where
  open fl use {Float}

  abbrev pub text_in : Option Value → Option Text
  text_in none = none
  text_in (some v) = as_text v

  abbrev pub id_in : Option Fields → Option Text
  id_in none = none
  id_in (some d) = text_in (get (text "id") d)

  -- The id field of a device, where the device is a mapping and the field a text.
  abbrev pub id_of : Value → Option Text
  id_of v = id_in (as_mapping v)

  -- The id fields of some devices, in their order.
  abbrev pub ids_of : Values → List (Option Text)
  ids_of Values.end = []
  ids_of (Values.item v vs) = id_of v ∷ ids_of vs

  -- The elements of a list in reverse, before those of another.
  abbrev pub onto {ℓ} : {A : Type ℓ} → List A → List A → List A
  onto [] ys = ys
  onto (x ∷ xs) ys = onto xs (x ∷ ys)

  abbrev pub all_some : List Text → List (Option Text)
  all_some ids = map (λ (s : Text). some s) ids

  check_id-IsDeviceId :
      (ids : List Text) (d : Fields) (did : Text)
      → check_id ids d ≡ passed did
      → IsDeviceId did × (has did ids ≡ false) × (id_in (some d) ≡ some did)
  unfolding check_id
  check_id-IsDeviceId ids d did h =
      let (v, e1, h1) = chain-passed (required (get (text "id") d)) _ did h in
      let (s, e2, h2) = chain-passed (required (as_text v)) _ did h1 in
      let (fits, h3) = require-passed (is_device_id s) _ did h2 in
      let (fresh, h4) = require-passed (not (has s ids)) _ did h3 in
      let same : s ≡ did = passed-eq s did h4 in
      subst (λ (t : Text). IsDeviceId t × (has t ids ≡ false) × (id_in (some d) ≡ some t)) same
        (
          is_device_id-IsDeviceId s fits,
          ground (arith, fresh),
          ap text_in (required-passed (get (text "id") d) v e1) ∙ required-passed (as_text v) s e2,
        )

  check_device-IsDeviceId :
      (ids : List Text) (duration : Float) (proxied : Bool) (v : Value) (did : Text)
      (ws : List Text)
      → check_device ids duration proxied v ≡ passed (did, ws)
      → IsDeviceId did × (has did ids ≡ false) × (id_of v ≡ some did)
  unfolding check_device
  check_device-IsDeviceId ids duration proxied v did ws h =
      let (d, e1, h1) = chain-passed (required (as_mapping v)) _ (did, ws) h in
      let (s, e2, h2) = chain-passed (check_id ids d) _ (did, ws) h1 in
      let (w, e3, h3) = chain-passed (check_fields s duration proxied d) _ (did, ws) h2 in
      let same : s ≡ did = ap (λ (p : Text × List Text). p.0) (passed-eq (s, w) (did, ws) h3) in
      let (fits, fresh, named) = check_id-IsDeviceId ids d s e2 in
      subst (λ (t : Text). IsDeviceId t × (has t ids ≡ false) × (id_of v ≡ some t)) same
        (fits, fresh, ap id_in (required-passed (as_mapping v) d e1) ∙ named)

  abbrev pub size : Values → ℕ
  size Values.end = 0
  size (Values.item v vs) = suc (size vs)

  -- What the check of the remaining devices gives, with the ids that came before.
  abbrev pub AreIds : List Text → List (Option Text) → Type 0
  AreIds all named = All IsDeviceId all × IsDistinct all × (all_some all ≡ named)

  pub check_rest :
      (ids all : List Text) (duration : Float) (proxied : Bool) (vs : Values) (ws : List Text)
      → check_devices ids duration proxied vs ≡ passed (all, ws)
      → All IsDeviceId ids
      → IsDistinct ids
      → AreIds all (onto (ids_of vs) (all_some ids))
  unfolding check_devices
  check_rest ids all duration proxied Values.end ws h good apart =
      let same : ids ≡ all =
        ap (λ (p : List Text × List Text). p.0) (passed-eq (ids, []) (all, ws) h) in
      subst (λ (l : List Text). AreIds l (all_some ids)) same (good, apart, refl)
  check_rest ids all duration proxied (Values.item v vs) ws h good apart =
      let ((did, w), e1, h1) = chain-passed (check_device ids duration proxied v) _ (all, ws) h in
      let ((all', ws'), e2, h2) =
        chain-passed (check_devices (did ∷ ids) duration proxied vs) _ (all, ws) h1 in
      let same : all' ≡ all = ap (λ (p : List Text × List Text). p.0) (passed-eq _ (all, ws) h2) in
      let (fits, fresh, named) = check_device-IsDeviceId ids duration proxied v did w e1 in
      subst (λ (l : List Text). AreIds l (onto (ids_of (Values.item v vs)) (all_some ids))) same
        (subst (λ (o : Option Text). AreIds all' (onto (ids_of vs) (o ∷ all_some ids))) (sym named)
          (check_rest (did ∷ ids) all' duration proxied vs ws' e2 (fits, good) (fresh, apart)))

  -- Where the check of a scenario's devices passes, the ids it has read are the id fields of the
  -- devices, the last first; each has one to twelve characters, all ASCII, and no two are equal.
  pub check_devices-IsDeviceId :
      (all : List Text) (duration : Float) (proxied : Bool) (vs : Values) (ws : List Text)
      → check_devices [] duration proxied vs ≡ passed (all, ws)
      → AreIds all (onto (ids_of vs) [])
  check_devices-IsDeviceId all duration proxied vs ws h =
      check_rest [] all duration proxied vs ws h tt tt
