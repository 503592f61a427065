-- ===== src/Python/Floats.antt =====
-- Python's floats. The type and its operations are an interface, since the checker has no floats:
-- the operations are those that the modelled code calls, and the laws are those of struct's IEEE
-- formats. A development takes an instance as a section's parameter.
use ecu_telemetry.Prelude.{ℕ, ◌^◌, ◌<◌, ◌≡◌, Option, some, Bool, List}

pub record Floats : Type 1 where
  pub Float : Type 0
  -- the literal m / 10 ^ d
  pub lit : ℕ → ℕ → Float
  pub of_ℕ : ℕ → Float
  pub add : Float → Float → Float
  pub sub : Float → Float → Float
  pub mul : Float → Float → Float
  pub div : Float → Float → Float
  pub abs : Float → Float
  pub sqrt : Float → Float
  -- round(x, n)
  pub round : Float → ℕ → Float
  -- "{x:.nf}" and str(x), as code points
  pub format : Float → ℕ → List ℕ
  pub str : Float → List ℕ
  -- float(s) of a text; none is ValueError
  pub parse : List ℕ → Option Float
  -- a < b and a <= b
  pub lt : Float → Float → Bool
  pub le : Float → Float → Bool
  -- struct's formats f and d; packing a float outside the range of f raises OverflowError
  pub f32_pack : Float → Option ℕ
  pub f32_unpack : ℕ → Float
  pub f64_pack : Float → ℕ
  pub f64_unpack : ℕ → Float
  pub f32_pack-lt : (x : Float) (b : ℕ) → f32_pack x ≡ some b → b < 2 ^ 32
  pub f64_pack-lt : (x : Float) → f64_pack x < 2 ^ 64
  pub f64_unpack-f64_pack : (x : Float) → f64_unpack (f64_pack x) ≡ x
