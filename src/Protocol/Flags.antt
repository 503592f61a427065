-- ===== src/Protocol/Flags.antt =====
-- The fault flags: FAULT_FLAGS, flags_to_names and names_to_flags of backend/app/protocol.py.
use Prim.Native.Nat.{bit_and, bit_or}
use ecu_telemetry.Prelude.{
  ℕ, ◌<◌, ◌≡◌, refl, Bool, true, false, ◌&&◌, Option, none, some, List, [], ◌∷◌, ◌==◌,
  if◌then◌else◌, arith,
}
use ecu_telemetry.Python.Result.{Result, ok, err, protocol_error, ◌>>=◌}
use ecu_telemetry.Python.Text.{Text, text, ◌===◌, strip, upper, is_space}

abbrev pub fault_flags : List (Text × ℕ)
fault_flags =
    (text "OVERTEMP", 0x01)
    ∷ (text "OVERCURRENT", 0x02)
    ∷ (text "UNDERVOLTAGE", 0x04)
    ∷ (text "VIBRATION_HIGH", 0x08)
    ∷ (text "SENSOR_STUCK", 0x10)
    ∷ (text "GPS_LOST", 0x20)
    ∷ (text "COMM_DEGRADED", 0x40)
    ∷ (text "ENCODER_FAULT", 0x80)
    ∷ []

-- `[name for name, bit in table if flags & bit]`
names_in : List (Text × ℕ) → ℕ → List Text
names_in [] flags = []
names_in ((name, bit) ∷ table) flags =
    let rest = names_in table flags in if bit_and flags bit == 0 then rest else name ∷ rest

unfoldable pub flags_to_names : ℕ → List Text
unfolding names_in
flags_to_names flags = names_in fault_flags flags

-- FAULT_FLAGS.get(key)
flag_in : List (Text × ℕ) → Text → Option ℕ
unfolding ◌===◌
flag_in [] key = none
flag_in ((name, bit) ∷ table) key = if name === key then some bit else flag_in table key

unfoldable pub fault_flag : Text → Option ℕ
unfolding flag_in
fault_flag key = flag_in fault_flags key

abbrev add_flag : Option ℕ → ℕ → Result ℕ
add_flag none out = err protocol_error
add_flag (some bit) out = ok (bit_or out bit)

flags_loop : ℕ → List Text → Result ℕ
unfolding fault_flag strip upper is_space
flags_loop out [] = ok out
flags_loop out (n ∷ names) =
    add_flag (fault_flag (upper (strip n))) out >>= λ next. flags_loop next names

unfoldable pub names_to_flags : List Text → Result ℕ
unfolding flags_loop
names_to_flags names = flags_loop 0 names

-- A test of every value below a bound.
unfoldable pub below_all : (ℕ → Bool) → ℕ → Bool
below_all test ℕ.zero = true
below_all test (ℕ.suc k) = below_all test k && test k

pub below_all-holds :
    (test : ℕ → Bool) (k flags : ℕ) → flags < k → below_all test k ≡ true → test flags ≡ true
unfolding below_all
below_all-holds test ℕ.zero flags small h = absurd (omega arith)
below_all-holds test (ℕ.suc k) flags small h = ground (arith, below_all-holds test k flags)

abbrev returns : Result ℕ → ℕ → Bool
returns (ok a) b = a == b
returns (err e) b = false

returns-eq : (r : Result ℕ) (b : ℕ) → returns r b ≡ true → r ≡ ok b
returns-eq (ok a) b h = ground arith
returns-eq (err e) b h = ground arith

table : below_all (λ f. returns (names_to_flags (flags_to_names f)) f) 256 ≡ true
unfolding below_all names_to_flags flags_to_names
table = refl

-- Naming the flags of a byte and reading the names back gives the byte.
pub names_to_flags-flags_to_names :
    (flags : ℕ) → flags < 256 → names_to_flags (flags_to_names flags) ≡ ok flags
names_to_flags-flags_to_names flags h =
    returns-eq (names_to_flags (flags_to_names flags)) flags (below_all-holds _ 256 flags h table)
