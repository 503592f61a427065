-- ===== src/Protocol/Text.antt =====
-- _cstr and _pad of backend/app/protocol.py: text in fixed, NUL-padded fields.
use ecu_telemetry.Prelude.{
  ℕ, suc, true, false, Bool-cases, inl, inr, sym, ◌∙◌, ltb, take_all, ◌-◌, ◌<◌, ◌≤◌, ◌≡◌, ◌≢◌, refl,
  ap, [], ◌∷◌, ◌++◌, arith, leb, ◌==◌, if◌then◌else◌, length, take, replicate, length-append,
  length-replicate, length-take, All,
}
use ecu_telemetry.Python.Text.{Text, ascii_encode, ascii_decode}
use ecu_telemetry.Python.Struct.{Bytes}

-- raw.split(b"\0", 1)[0]
before_nul : Bytes → Bytes
before_nul [] = []
before_nul (b ∷ bs) = if b == 0 then [] else b ∷ before_nul bs

unfoldable pub cstr : Bytes → Text
unfolding before_nul ascii_decode
cstr raw = ascii_decode (before_nul raw)

-- b.ljust(n, b"\0")
ljust : Bytes → ℕ → Bytes
ljust b n = b ++ replicate (n - length b) 0

unfoldable pub pad : Text → ℕ → Bytes
unfolding ljust ascii_encode
pad s n =
    let e = ascii_encode s in let b = if leb n (length e) then take (n - 1) e else e in ljust b n

-- The characters that a field stores as they are.
abbrev pub IsPlain : ℕ → Type 0
IsPlain c = (c ≢ 0) × (c < 128)

-- A text that its field stores without loss: plain characters, and room for one NUL.
abbrev pub FitsText : ℕ → Text → Type 0
FitsText n s = All IsPlain s × (length s < n)

ascii_encode-plain : (s : Text) → All IsPlain s → ascii_encode s ≡ s
unfolding ascii_encode
ascii_encode-plain [] h = refl
ascii_encode-plain (c ∷ s) ((_, h), hs) = ground (arith, ascii_encode-plain s hs)

length-ascii_encode : (s : Text) → length (ascii_encode s) ≡ length s
unfolding ascii_encode
length-ascii_encode [] = refl
length-ascii_encode (c ∷ s) = omega (arith, length-ascii_encode s)

length-ljust : (b : Bytes) (n : ℕ) → length b ≤ n → length (ljust b n) ≡ n
unfolding ljust
length-ljust b n h =
    omega (
      arith,
      length-append b (replicate (n - length b) 0),
      length-replicate {A = ℕ} (n - length b) 0,
    )

cut : ℕ → Bytes → Bytes
cut n e = if leb n (length e) then take (n - 1) e else e

length-cut : (n : ℕ) (e : Bytes) → length (cut n e) ≤ n
unfolding cut
length-cut n e = ground (arith, length-take (n - 1) e)

-- A field has its length, whatever the text.
pub length-pad : (s : Text) (n : ℕ) → length (pad s n) ≡ n
unfolding pad cut
length-pad s n = length-ljust (cut n (ascii_encode s)) n (length-cut n (ascii_encode s))

cstr-plain : (s : Text) (k : ℕ) → All IsPlain s → cstr (s ++ replicate (suc k) 0) ≡ s
unfolding cstr
cstr-plain [] k h = refl
cstr-plain (c ∷ s) k ((nz, h), hs) = ground (arith, cstr-plain s k hs)

pad-plain : (s : Text) (n : ℕ) → FitsText n s → pad s n ≡ s ++ replicate (suc (n - length s - 1)) 0
unfolding pad ljust
pad-plain s n (h, l) =
    let room : n - length s ≡ suc (n - length s - 1) = omega arith in
    let short : leb n (length s) ≡ false = ground arith in
    rw (ascii_encode-plain s h, short) (ap (λ (k : ℕ). s ++ replicate k 0) room)

-- A text that fits its field of n bytes is read back from it.
pub cstr-pad : (s : Text) (n : ℕ) → FitsText n s → cstr (pad s n) ≡ s
cstr-pad s n (h, l) = rw (pad-plain s n (h, l)) (cstr-plain s (n - length s - 1) h)

All-take : (n : ℕ) (s : Text) → All IsPlain s → All IsPlain (take n s)
All-take ℕ.zero s h = tt
All-take (suc n) [] h = tt
All-take (suc n) (c ∷ s) (h, hs) = (h, All-take n s hs)

pad-long :
    (s : Text) (n : ℕ)
    → All IsPlain s
    → 0 < n
    → n ≤ length s
    → pad s n ≡ take (n - 1) s ++ replicate (suc 0) 0
unfolding pad ljust
pad-long s n h pos l =
    let long : leb n (length s) ≡ true = ground arith in
    let room : n - length (take (n - 1) s) ≡ suc 0 = omega (arith, length-take (n - 1) s) in
    rw (ascii_encode-plain s h, long) (ap (λ (k : ℕ). take (n - 1) s ++ replicate k 0) room)

-- A text of plain characters is read back from a field of n bytes as its first n - 1 characters.
pub cstr-pad_cut : (s : Text) (n : ℕ) → All IsPlain s → 0 < n → cstr (pad s n) ≡ take (n - 1) s
cstr-pad_cut s n h pos = elim (Bool-cases (ltb (length s) n)) [
  | inl e ↦
      let short : length s < n = ground (arith, e) in
      cstr-pad s n (h, short) ∙ sym (take_all (n - 1) s (omega arith))
  | inr e ↦
      let long : n ≤ length s = ground (arith, e) in
      rw (pad-long s n h pos long) (cstr-plain (take (n - 1) s) 0 (All-take (n - 1) s h))
]
