-- ===== src/Python/Utf8.antt =====
-- s.encode("utf-8") and b.decode("utf-8", "replace") as CPython does them: an ill-formed sequence
-- gives one U+FFFD for its longest well-formed start, or for one byte.
use ecu_telemetry.Prelude.{
  ℕ, zero, suc, ◌+◌, ◌-◌, ◌*◌, ◌/◌, ◌%◌, ◌≤◌, ◌<◌, ◌≡◌, refl, ap, ◌⊎◌, Bool, true, false, ◌&&◌,
  List, [], ◌∷◌, ◌++◌, arith, ltb, leb, ◌==◌, if◌then◌else◌, All,
}
use ecu_telemetry.Python.Result.{Result, ok, err, unicode_error, ◌>>=◌}
use ecu_telemetry.Python.Text.{Text}

-- A surrogate is no character, and encoding it raises UnicodeEncodeError.
is_surrogate : ℕ → Bool
is_surrogate c = leb 0xD800 c && ltb c 0xE000

-- the continuation byte of the lowest six bits
abbrev cont : ℕ → ℕ
cont c = 0x80 + c % 64

encode_char : ℕ → List ℕ
encode_char c =
    if ltb c 0x80
    then c ∷ []
    else if ltb c 0x800
    then (0xC0 + c / 64) ∷ cont c ∷ []
    else if ltb c 0x10000
    then (0xE0 + c / 4096) ∷ cont (c / 64) ∷ cont c ∷ []
    else (0xF0 + c / 262144) ∷ cont (c / 4096) ∷ cont (c / 64) ∷ cont c ∷ []

unfoldable pub utf8_encode : Text → Result (List ℕ)
unfolding encode_char is_surrogate
utf8_encode [] = ok []
utf8_encode (c ∷ s) =
    let rest = utf8_encode s in
    if is_surrogate c then err unicode_error else (rest >>= λ bs. ok (encode_char c ++ bs))

-- A byte in the range that may follow.
abbrev within : ℕ → ℕ → ℕ → Bool
within lo hi b = leb lo b && leb b hi

is_cont : ℕ → Bool
is_cont b = within 0x80 0xBF b

-- The second byte's range rules out overlong forms, surrogates and what lies above U+10FFFF.
second_of_3 : ℕ → ℕ → Bool
second_of_3 a b =
    if a == 0xE0
    then within 0xA0 0xBF b
    else if a == 0xED
    then within 0x80 0x9F b
    else within 0x80 0xBF b

second_of_4 : ℕ → ℕ → Bool
second_of_4 a b =
    if a == 0xF0
    then within 0x90 0xBF b
    else if a == 0xF4
    then within 0x80 0x8F b
    else within 0x80 0xBF b

-- One character from the front: the character and how many bytes it takes beyond the first.
front : ℕ → List ℕ → ℕ × ℕ
front a [] = if ltb a 0x80 then (a, 0) else (0xFFFD, 0)
front a (b ∷ []) =
    if ltb a 0x80
    then (a, 0)
    else if within 0xC2 0xDF a && is_cont b
    then ((a - 0xC0) * 64 + (b - 0x80), 1)
    else if within 0xE0 0xEF a && second_of_3 a b
    then (0xFFFD, 1)
    else if within 0xF0 0xF4 a && second_of_4 a b
    then (0xFFFD, 1)
    else (0xFFFD, 0)
front a (b ∷ c ∷ []) =
    if ltb a 0x80
    then (a, 0)
    else if within 0xC2 0xDF a && is_cont b
    then ((a - 0xC0) * 64 + (b - 0x80), 1)
    else if within 0xE0 0xEF a && second_of_3 a b
    then (if is_cont c then ((a - 0xE0) * 4096 + (b - 0x80) * 64 + (c - 0x80), 2) else (0xFFFD, 1))
    else if within 0xF0 0xF4 a && second_of_4 a b
    then (if is_cont c then (0xFFFD, 2) else (0xFFFD, 1))
    else (0xFFFD, 0)
front a (b ∷ c ∷ d ∷ _) =
    if ltb a 0x80
    then (a, 0)
    else if within 0xC2 0xDF a && is_cont b
    then ((a - 0xC0) * 64 + (b - 0x80), 1)
    else if within 0xE0 0xEF a && second_of_3 a b
    then (if is_cont c then ((a - 0xE0) * 4096 + (b - 0x80) * 64 + (c - 0x80), 2) else (0xFFFD, 1))
    else if within 0xF0 0xF4 a && second_of_4 a b
    then (if is_cont c
        then (if is_cont d
            then ((a - 0xF0) * 262144 + (b - 0x80) * 4096 + (c - 0x80) * 64 + (d - 0x80), 3)
            else (0xFFFD, 2))
        else (0xFFFD, 1))
    else (0xFFFD, 0)

-- `skip` bytes belong to the character before.
decode_loop : ℕ → List ℕ → Text
unfolding front
decode_loop skip [] = []
decode_loop (suc skip) (a ∷ bs) = decode_loop skip bs
decode_loop zero (a ∷ bs) = let (c, n) = front a bs in c ∷ decode_loop n bs

unfoldable pub utf8_decode : List ℕ → Text
unfolding decode_loop is_cont second_of_3 second_of_4
utf8_decode bs = decode_loop 0 bs

-- The code points that have an encoding.
abbrev pub IsScalar : ℕ → Type 0
IsScalar c = (c < 0xD800) ⊎ ((0xE000 ≤ c) × (c < 0x110000))

one_byte : (c : ℕ) (bs : List ℕ) → c < 0x80 → decode_loop 0 (c ∷ bs) ≡ c ∷ decode_loop 0 bs
unfolding decode_loop
one_byte c [] h = ground arith
one_byte c (x ∷ []) h = ground arith
one_byte c (x ∷ y ∷ []) h = ground arith
one_byte c (x ∷ y ∷ z ∷ bs) h = ground arith

two_bytes :
    (c : ℕ) (bs : List ℕ)
    → 0x80 ≤ c
    → c < 0x800
    → decode_loop 0 ((0xC0 + c / 64) ∷ cont c ∷ bs) ≡ c ∷ decode_loop 0 bs
unfolding decode_loop is_cont second_of_3
two_bytes c [] h k = ground arith
two_bytes c (x ∷ []) h k = ground arith
two_bytes c (x ∷ y ∷ bs) h k = ground arith

three_bytes :
    (c : ℕ) (bs : List ℕ)
    → 0x800 ≤ c
    → c < 0x10000
    → IsScalar c
    → decode_loop 0 ((0xE0 + c / 4096) ∷ cont (c / 64) ∷ cont c ∷ bs) ≡ c ∷ decode_loop 0 bs
unfolding decode_loop is_cont second_of_3
three_bytes c [] h k s = ground arith
three_bytes c (x ∷ bs) h k s = ground arith

cont-is_cont : (c : ℕ) → is_cont (cont c) ≡ true
unfolding is_cont
cont-is_cont c = ground arith

second_in_range :
    (c : ℕ) → 0x10000 ≤ c → c < 0x110000 → second_of_4 (0xF0 + c / 262144) (cont (c / 4096)) ≡ true
unfolding second_of_4
second_in_range c h k = ground arith

abbrev join_4 : ℕ → ℕ → ℕ → ℕ → ℕ
join_4 a b c d = (a - 0xF0) * 262144 + (b - 0x80) * 4096 + (c - 0x80) * 64 + (d - 0x80)

join_four : (c : ℕ) → join_4 (0xF0 + c / 262144) (cont (c / 4096)) (cont (c / 64)) (cont c) ≡ c
join_four c = omega arith

four_bytes :
    (c : ℕ) (bs : List ℕ)
    → 0x10000 ≤ c
    → c < 0x110000
    → decode_loop 0 ((0xF0 + c / 262144) ∷ cont (c / 4096) ∷ cont (c / 64) ∷ cont c ∷ bs)
      ≡ c ∷ decode_loop 0 bs
unfolding decode_loop
four_bytes c bs h k =
    rw
      (
        first_not_ascii,
        first_not_2,
        first_not_3,
        first_is_4,
        second_in_range c h k,
        cont-is_cont (c / 64),
        cont-is_cont c,
      )
      (ap (λ (x : ℕ). x ∷ decode_loop 0 bs) (join_four c))
  where
    first_not_ascii : ltb (0xF0 + c / 262144) 0x80 ≡ false
    first_not_ascii = ground arith

    first_not_2 : within 0xC2 0xDF (0xF0 + c / 262144) ≡ false
    first_not_2 = ground arith

    first_not_3 : within 0xE0 0xEF (0xF0 + c / 262144) ≡ false
    first_not_3 = ground arith

    first_is_4 : within 0xF0 0xF4 (0xF0 + c / 262144) ≡ true
    first_is_4 = ground arith

decode_char :
    (c : ℕ) (bs : List ℕ) → IsScalar c → decode_loop 0 (encode_char c ++ bs) ≡ c ∷ decode_loop 0 bs
unfolding encode_char
decode_char c bs h =
    ground (arith, one_byte c bs, two_bytes c bs, three_bytes c bs, four_bytes c bs)

not_surrogate : (c : ℕ) → IsScalar c → is_surrogate c ≡ false
unfolding is_surrogate
not_surrogate c h = ground arith

-- A text without surrogates has an encoding, and decoding it gives the text back.
pub utf8_decode-utf8_encode :
    (s : Text) → All IsScalar s → (bs : List ℕ) × (utf8_encode s ≡ ok bs) × (utf8_decode bs ≡ s)
unfolding utf8_encode utf8_decode
utf8_decode-utf8_encode [] h = ([], refl, refl)
utf8_decode-utf8_encode (c ∷ s) (h, hs) =
    let (bs, e, d) = utf8_decode-utf8_encode s hs in
    (
      encode_char c ++ bs,
      rw (not_surrogate c h, e),
      rw (decode_char c bs h) (ap (λ (t : Text). c ∷ t) d),
    )

samples :
    utf8_decode (0x41 ∷ 0xE2 ∷ 0x82 ∷ 0xAC ∷ 0xE2 ∷ 0x82 ∷ 0x42 ∷ 0xFF ∷ [])
    ≡ 0x41 ∷ 0x20AC ∷ 0xFFFD ∷ 0x42 ∷ 0xFFFD ∷ []
unfolding utf8_decode
samples = refl
