-- ===== src/Protocol/Firmware.antt =====
-- fw_encode and fw_decode of backend/app/protocol.py.
use Prim.Native.Nat.{bit_or}
use ecu_telemetry.Prelude.{
  ℕ, ◌+◌, ◌*◌, ◌/◌, ◌%◌, ◌^◌, ◌<◌, ◌≡◌, ◌≢◌, ◌∙◌, ap, ◌&&◌, Option, none, some, List, [], ◌∷◌, ◌++◌,
  arith, ltb, if◌then◌else◌, All, All-append,
}
use ecu_telemetry.Prelude.Bits.Or.{bit_or-disjoint}
use ecu_telemetry.Python.Result.{Result, ok, err, protocol_error, ◌>>=◌}
use ecu_telemetry.Python.Text.{Text, strip, split, strip-ink, split-cut, split-whole, IsInk}
use ecu_telemetry.Python.Decimal.{
  ℤ, pos, int_parse, str_int, IsDigit, str_int-IsDigit, int_parse-str_int,
}

-- The range test and the packing of the three numbers.
combine : ℤ → ℤ → ℤ → Result ℕ
combine (pos major) (pos minor) (pos patch) =
    if ltb major 65536 && ltb minor 256 && ltb patch 256
    then ok (bit_or (bit_or (major * 2 ^ 16) (minor * 2 ^ 8)) patch)
    else err protocol_error
combine _ _ _ = err protocol_error

-- A part that int() refuses.
abbrev number : Option ℤ → Result ℤ
number none = err protocol_error
number (some n) = ok n

three : List Text → Result ℕ
unfolding combine int_parse
three (a ∷ b ∷ c ∷ []) = number (int_parse a) >>= λ major.
    number (int_parse b) >>= λ minor. number (int_parse c) >>= λ patch. combine major minor patch
three _ = err protocol_error

unfoldable pub fw_encode : Text → Result ℕ
unfolding three strip split
fw_encode version = three (split b'.' (strip version))

unfoldable pub fw_decode : ℕ → Text
unfolding str_int
fw_decode v =
    str_int (v / 2 ^ 16 % 2 ^ 16)
    ++ (b'.' ∷ (str_int (v / 2 ^ 8 % 2 ^ 8) ++ (b'.' ∷ str_int (v % 2 ^ 8))))

digits_no_dot : (s : Text) → All IsDigit s → All (λ c. c ≢ b'.') s
digits_no_dot [] h = tt
digits_no_dot (c ∷ s) (h, hs) = ((λ e. omega arith), digits_no_dot s hs)

digits-IsInk : (s : Text) → All IsDigit s → All IsInk s
digits-IsInk [] h = tt
digits-IsInk (c ∷ s) (h, hs) = (omega arith, digits-IsInk s hs)

-- The three decimal parts, joined by dots.
dotted : ℕ → ℕ → ℕ → Text
dotted a b c = str_int a ++ (b'.' ∷ (str_int b ++ (b'.' ∷ str_int c)))

dotted-IsInk : (a b c : ℕ) → All IsInk (dotted a b c)
unfolding dotted
dotted-IsInk a b c =
    let ink = λ (n : ℕ). digits-IsInk (str_int n) (str_int-IsDigit n) in
    All-append IsInk (str_int a) _ (ink a)
      (omega arith, All-append IsInk (str_int b) _ (ink b) (omega arith, ink c))

split-dotted : (a b c : ℕ) → split b'.' (dotted a b c) ≡ str_int a ∷ str_int b ∷ str_int c ∷ []
unfolding dotted
split-dotted a b c =
    let plain = λ (n : ℕ). digits_no_dot (str_int n) (str_int-IsDigit n) in
    rw (
      split-cut b'.' (str_int a) (str_int b ++ (b'.' ∷ str_int c)) (plain a),
      split-cut b'.' (str_int b) (str_int c) (plain b),
      split-whole b'.' (str_int c) (plain c),
    )

packed :
    (a b c : ℕ)
    → b < 256
    → c < 256
    → bit_or (bit_or (a * 2 ^ 16) (b * 2 ^ 8)) c ≡ a * 65536 + b * 256 + c
packed a b c hb hc =
    let high : bit_or (a * 2 ^ 16) (b * 2 ^ 8) ≡ (a * 256 + b) * 2 ^ 8 =
      bit_or-disjoint 16 a (b * 2 ^ 8) (omega arith) ∙ omega arith in
    ap (λ (t : ℕ). bit_or t c) high ∙ bit_or-disjoint 8 (a * 256 + b) c (omega arith) ∙ omega arith

combine_lem :
    (a b c : ℕ)
    → a < 65536
    → b < 256
    → c < 256
    → combine (pos a) (pos b) (pos c) ≡ ok (a * 65536 + b * 256 + c)
unfolding combine
combine_lem a b c ha hb hc = ground (arith, packed a b c)

three-dotted :
    (a b c : ℕ)
    → a < 65536
    → b < 256
    → c < 256
    → three (str_int a ∷ str_int b ∷ str_int c ∷ []) ≡ ok (a * 65536 + b * 256 + c)
three-dotted a b c ha hb hc =
    unfold three in
    rw (int_parse-str_int a, int_parse-str_int b, int_parse-str_int c) (combine_lem a b c ha hb hc)

-- Decoding a u32 to text and encoding the text gives the u32 back.
pub fw_encode-fw_decode : (v : ℕ) → v < 2 ^ 32 → fw_encode (fw_decode v) ≡ ok v
unfolding fw_encode fw_decode dotted
fw_encode-fw_decode v h =
    let a = v / 2 ^ 16 % 2 ^ 16 in
    let b = v / 2 ^ 8 % 2 ^ 8 in
    let c = v % 2 ^ 8 in
    rw (strip-ink (dotted a b c) (dotted-IsInk a b c), split-dotted a b c)
      (three-dotted a b c (omega arith) (omega arith) (omega arith) ∙ ap ok (omega arith))
