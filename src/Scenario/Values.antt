-- ===== src/Scenario/Values.antt =====
-- What yaml.safe_load returns, as far as JSON has it, and the tests that sim/run_sil.py makes on it.
use ecu_telemetry.Prelude.{
  ◌+◌, Bool, true, false, ◌||◌, Option, none, some, [], ◌∷◌, ltb, if◌then◌else◌,
}
use ecu_telemetry.Python.Floats.{Floats}
use ecu_telemetry.Python.Text.{Text, ◌===◌}
use ecu_telemetry.Python.Decimal.{ℤ}

-- What a check ends with: its value, a SchemaError, or another exception.
pub data Checked (A : Type 0) : Type 0 where
  passed : A → Checked A
  schema_error : Checked A
  other_error : Checked A

infixl 20 ◌>>>◌
abbrev pub ◌>>>◌ : {A B : Type 0} → Checked A → (A → Checked B) → Checked B
passed a >>> f = f a
schema_error >>> f = schema_error
other_error >>> f = other_error

-- _require
unfoldable pub require : Bool → Checked (Unit {0})
require true = passed tt
require false = schema_error

module _ ⦃fl : Floats⦄ where
  open fl use {Float}

  mutual
    -- A value; a mapping's keys are texts.
    pub data Value : Type 0 where
      null : Value
      boolean : Bool → Value
      int : ℤ → Value
      float : Float → Value
      string : Text → Value
      sequence : Values → Value
      mapping : Fields → Value

    pub data Values : Type 0 where
      end : Values
      item : Value → Values → Values

    pub data Fields : Type 0 where
      empty : Fields
      field : Text → Value → Fields → Fields

  -- d.get(k)
  unfoldable pub get : Text → Fields → Option Value
  get k empty = none
  get k (field j v rest) = if j === k then some v else get k rest

  -- k in d
  unfoldable pub has_key : Text → Fields → Bool
  unfolding get
  has_key k d = elim (get k d) [ none ↦ false | some v ↦ true ]

  -- d.get(k, v)
  abbrev pub or_value : Option Value → Value → Value
  or_value none v = v
  or_value (some w) v = w

  -- The truth of a value.
  unfoldable pub truthy : Value → Bool
  truthy null = false
  truthy (boolean b) = b
  truthy (int (ℤ.pos n)) = ltb 0 n
  truthy (int (ℤ.negsuc n)) = true
  truthy (float x) = fl.lt x (fl.of_ℕ 0) || fl.lt (fl.of_ℕ 0) x
  truthy (string []) = false
  truthy (string (c ∷ s)) = true
  truthy (sequence end) = false
  truthy (sequence (item v vs)) = true
  truthy (mapping empty) = false
  truthy (mapping (field k v d)) = true

  -- isinstance(x, int): a bool is an int.
  unfoldable pub as_int : Value → Option ℤ
  as_int (boolean true) = some (ℤ.pos 1)
  as_int (boolean false) = some (ℤ.pos 0)
  as_int (int n) = some n
  as_int v = none

  unfoldable pub float_of : ℤ → Float
  float_of (ℤ.pos n) = fl.of_ℕ n
  float_of (ℤ.negsuc n) = fl.sub (fl.of_ℕ 0) (fl.of_ℕ (n + 1))

  -- _is_num, with the number as a float.
  unfoldable pub as_num : Value → Option Float
  unfolding float_of
  as_num (int n) = some (float_of n)
  as_num (float x) = some x
  as_num v = none

  unfoldable pub as_text : Value → Option Text
  as_text (string s) = some s
  as_text v = none

  unfoldable pub as_mapping : Value → Option Fields
  as_mapping (mapping d) = some d
  as_mapping v = none
