-- ===== src/Python/Result.antt =====
-- Exceptions as values: the classes of backend/app/protocol.py and those that struct and str raise.
use ecu_telemetry.Prelude.{Bool, true, false, ◌≡◌, refl, ap}

pub data Error : Type 0 where
  protocol_error bad_magic bad_version bad_crc bad_length : Error
  struct_error overflow_error unicode_error : Error

-- `except ProtocolError`: the class itself and its four subclasses.
unfoldable pub is_protocol_error : Error → Bool
is_protocol_error Error.struct_error = false
is_protocol_error Error.overflow_error = false
is_protocol_error Error.unicode_error = false
is_protocol_error _ = true

pub data Result {ℓ} (X : Type ℓ) : Type ℓ where
  err : Error → Result X
  ok : X → Result X

abbrev or_else {ℓ} : {X : Type ℓ} → X → Result X → X
or_else x (ok y) = y
or_else x (err e) = x

pub ok-injective {ℓ} : {X : Type ℓ} {x y : X} → ok x ≡ ok y → x ≡ y
ok-injective {x = x} h = ap (or_else x) h

infixl 5 ◌>>=◌ ◌>>◌
abbrev pub ◌>>=◌ {ℓ κ} : {X : Type ℓ} {Y : Type κ} → Result X → (X → Result Y) → Result Y
err e >>= next = err e
ok x >>= next = next x

-- Inversion of a chain that returned.
pub >>=-eq-ok {ℓ κ} :
    {X : Type ℓ} {Y : Type κ} (m : Result X) (next : X → Result Y) {y : Y}
    → (m >>= next) ≡ ok y
    → (x : X) × (m ≡ ok x) × (next x ≡ ok y)
>>=-eq-ok (err e) next h = cc
>>=-eq-ok (ok x) next h = (x, refl, h)

-- `if not test: raise e`
abbrev pub require : Bool → Error → Result (Unit {0})
require true e = ok tt
require false e = err e

abbrev pub ◌>>◌ {ℓ} : {Y : Type ℓ} → Result (Unit {0}) → Result Y → Result Y
first >> second = first >>= λ _. second

pub require-eq-ok {ℓ} :
    {X : Type ℓ} (t : Bool) (e : Error) (m : Result X) {x : X}
    → (require t e >> m) ≡ ok x
    → (t ≡ true) × (m ≡ ok x)
require-eq-ok true e m h = (refl, h)
require-eq-ok false e m h = cc
