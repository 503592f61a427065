-- ===== src/Python/Decimal.antt =====
-- str(n) of a natural number, and int(s) of an ASCII text.
use ecu_telemetry.Prelude.{
  ℕ, zero, suc, ◌+◌, ◌-◌, ◌*◌, ◌/◌, ◌%◌, ◌≤◌, ◌<◌, ◌≡◌, refl, ap, Bool, true, false, ◌&&◌, Option,
  none, some, [], ◌∷◌, ◌++◌, arith, ltb, leb, ◌==◌, Bool-cases, inl, inr, if◌then◌else◌, All,
  All-append, length, length-append,
}
use ecu_telemetry.Python.Text.{Text, strip, strip-ink, IsInk}

pub data ℤ : Type 0 where
  pos negsuc : ℕ → ℤ

-- The decimal digits, on fuel above the number.
str_loop : ℕ → ℕ → Text
str_loop zero n = []
str_loop (suc f) n =
    let more = str_loop f (n / 10) in
    if ltb n 10 then (48 + n) ∷ [] else more ++ ((48 + n % 10) ∷ [])

unfoldable pub str_int : ℕ → Text
unfolding str_loop
str_int n = str_loop (suc n) n

is_digit : ℕ → Bool
is_digit c = leb 48 c && leb c 57

-- Digits with single underscores between them; `after` says that a digit stands before.
int_digits : Bool → ℕ → Text → Option ℕ
unfolding is_digit
int_digits after acc [] = if after then some acc else none
int_digits after acc (c ∷ s) =
    let digit = int_digits true (acc * 10 + (c - 48)) s in
    let gap = int_digits false acc s in
    if is_digit c then digit else if c == b'_' && after then gap else none

negate : ℕ → ℤ
negate zero = pos 0
negate (suc n) = negsuc n

signed : (ℕ → ℤ) → Option ℕ → Option ℤ
signed f none = none
signed f (some n) = some (f n)

int_signed : Text → Option ℤ
unfolding signed negate int_digits
int_signed [] = none
int_signed (c ∷ s) =
    if c == b'-'
    then signed negate (int_digits false 0 s)
    else if c == b'+'
    then signed pos (int_digits false 0 s)
    else signed pos (int_digits false 0 (c ∷ s))

-- int(s); `none` is ValueError.
unfoldable pub int_parse : Text → Option ℤ
unfolding int_signed
int_parse s = int_signed (strip s)

-- A decimal digit's code.
abbrev pub IsDigit : ℕ → Type 0
IsDigit c = (48 ≤ c) × (c ≤ 57)

-- The number that digits stand for, after what is accumulated.
dec : ℕ → Text → ℕ
dec acc [] = acc
dec acc (c ∷ s) = dec (acc * 10 + (c - 48)) s

dec-append : (acc : ℕ) (s : Text) (c : ℕ) → dec acc (s ++ (c ∷ [])) ≡ dec acc s * 10 + (c - 48)
unfolding dec
dec-append acc [] c = refl
dec-append acc (x ∷ s) c = dec-append (acc * 10 + (x - 48)) s c

int_digits-dec : (acc : ℕ) (s : Text) → All IsDigit s → int_digits true acc s ≡ some (dec acc s)
unfolding int_digits dec
int_digits-dec acc [] h = refl
int_digits-dec acc (c ∷ s) (h, hs) = ground (arith, int_digits-dec (acc * 10 + (c - 48)) s hs)

str_loop-IsDigit : (f n : ℕ) → All IsDigit (str_loop f n)
unfolding str_loop
str_loop-IsDigit zero n = tt
str_loop-IsDigit (suc f) n = elim (Bool-cases (ltb n 10)) [
  | inl small ↦ rw small ((omega arith, ground arith), tt)
  | inr big ↦ rw big (
      All-append IsDigit (str_loop f (n / 10)) ((48 + n % 10) ∷ []) (str_loop-IsDigit f (n / 10))
        ((omega arith, omega arith), tt))
]

dec-str_loop : (f n : ℕ) → n < f → dec 0 (str_loop f n) ≡ n
unfolding str_loop dec
dec-str_loop zero n h = absurd (omega arith)
dec-str_loop (suc f) n h =
    ground (arith, dec-append 0 (str_loop f (n / 10)) (48 + n % 10), dec-str_loop f (n / 10))

str_loop-pos : (f n : ℕ) → 0 < length (str_loop (suc f) n)
unfolding str_loop
str_loop-pos f n = ground (arith, length-append (str_loop f (n / 10)) ((48 + n % 10) ∷ []))

int_signed-digits : (s : Text) → All IsDigit s → 0 < length s → int_signed s ≡ some (pos (dec 0 s))
unfolding int_signed dec
int_signed-digits [] h l = absurd (omega arith)
int_signed-digits (c ∷ s) (h, hs) l = ground (arith, int_digits-dec (0 * 10 + (c - 48)) s hs)

digits-IsInk : (s : Text) → All IsDigit s → All IsInk s
digits-IsInk [] h = tt
digits-IsInk (c ∷ s) (h, hs) = (omega arith, digits-IsInk s hs)

pub str_int-IsDigit : (n : ℕ) → All IsDigit (str_int n)
unfolding str_int
str_int-IsDigit n = str_loop-IsDigit (suc n) n

-- int(str(n)) is n.
pub int_parse-str_int : (n : ℕ) → int_parse (str_int n) ≡ some (pos n)
unfolding int_parse str_int
int_parse-str_int n =
    let s = str_loop (suc n) n in
    let d = str_loop-IsDigit (suc n) n in
    rw (strip-ink s (digits-IsInk s d), int_signed-digits s d (str_loop-pos n n))
      (ap (λ (k : ℕ). some (pos k)) (dec-str_loop (suc n) n (omega arith)))
