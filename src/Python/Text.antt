-- ===== src/Python/Text.antt =====
-- str and bytes: a text is its list of code points.
use Prim.Native.Char.{code}
use Prim.Native.String.{String}
use ecu_telemetry.Prelude.{
  ℕ, ◌-◌, ◌<◌, ◌≡◌, ◌≢◌, ◌↔◌, ◌||◌, ◌++◌, All, leb, refl, Bool, true, false, ◌&&◌, List, [], ◌∷◌,
  arith, ltb, ◌==◌, if◌then◌else◌,
}

abbrev pub Text : Type 0
Text = List ℕ

-- The code points of a literal.
abbrev pub text : String → Text
text String.[] = []
text (String.◌∷◌ c s) = code c ∷ text s

infix 50 ◌===◌
unfoldable pub ◌===◌ : Text → Text → Bool
[] === [] = true
[] === (y ∷ ys) = false
(x ∷ xs) === [] = false
(x ∷ xs) === (y ∷ ys) = (x == y) && (xs === ys)

pub ===_sound : (a b : Text) → (a === b) ≡ true → a ≡ b
unfolding ◌===◌
===_sound [] [] h = refl
===_sound [] (y ∷ ys) h = ground arith
===_sound (x ∷ xs) [] h = ground arith
===_sound (x ∷ xs) (y ∷ ys) h = ground (arith, ===_sound xs ys)

pub ===_refl : (a : Text) → (a === a) ≡ true
unfolding ◌===◌
===_refl [] = refl
===_refl (x ∷ xs) = ground (arith, ===_refl xs)

pub ===_iff : (a b : Text) → ((a === b) ≡ true) ↔ (a ≡ b)
===_iff a b = (===_sound a b, λ e. rw e (===_refl b))

-- s.encode("ascii", "replace") and b.decode("ascii", "replace")
unfoldable pub ascii_encode : Text → List ℕ
ascii_encode [] = []
ascii_encode (c ∷ s) = (if ltb c 128 then c else b'?') ∷ ascii_encode s

unfoldable pub ascii_decode : List ℕ → Text
ascii_decode [] = []
ascii_decode (b ∷ bs) = (if ltb b 128 then b else 0xFFFD) ∷ ascii_decode bs

-- str.strip, on ASCII
unfoldable pub is_space : ℕ → Bool
is_space c = (leb 9 c && leb c 13) || (leb 28 c && leb c 32)

lstrip : Text → Text
lstrip [] = []
lstrip (c ∷ s) = let rest = lstrip s in if is_space c then rest else c ∷ s

abbrev rstrip_cons : ℕ → Text → Text
rstrip_cons c [] = if is_space c then [] else c ∷ []
rstrip_cons c (d ∷ s) = c ∷ d ∷ s

rstrip : Text → Text
rstrip [] = []
rstrip (c ∷ s) = rstrip_cons c (rstrip s)

unfoldable pub strip : Text → Text
unfolding lstrip rstrip
strip s = rstrip (lstrip s)

-- str.upper, on ASCII
unfoldable pub upper : Text → Text
upper [] = []
upper (c ∷ s) = (if leb b'a' c && leb c b'z' then c - 32 else c) ∷ upper s

abbrev split_cons : ℕ → List Text → List Text
split_cons c [] = (c ∷ []) ∷ []
split_cons c (w ∷ ws) = (c ∷ w) ∷ ws

-- s.split(sep) for a one-character separator; there is always a first part.
unfoldable pub split : ℕ → Text → List Text
split sep [] = [] ∷ []
split sep (c ∷ s) = let rest = split sep s in if c == sep then [] ∷ rest else split_cons c rest

-- Neither a space nor a control character that strip removes.
abbrev pub IsInk : ℕ → Type 0
IsInk c = 32 < c

rstrip-ink : (s : Text) → All IsInk s → rstrip s ≡ s
unfolding rstrip is_space
rstrip-ink [] h = refl
rstrip-ink (c ∷ []) (h, _) = ground arith
rstrip-ink (c ∷ d ∷ s) (h, hs) = rw (rstrip-ink (d ∷ s) hs)

ink-is_space : (c : ℕ) → IsInk c → is_space c ≡ false
unfolding is_space
ink-is_space c h = ground arith

pub strip-ink : (s : Text) → All IsInk s → strip s ≡ s
unfolding strip
strip-ink [] h = refl
strip-ink (c ∷ s) (h, hs) =
    let dark : is_space c ≡ false = ink-is_space c h in rw (dark) (rstrip-ink (c ∷ s) (h, hs))

not_sep : (sep c : ℕ) → c ≢ sep → (c == sep) ≡ false
not_sep sep c h = ground arith

-- Splitting at the first separator.
pub split-cut :
    (sep : ℕ) (a b : Text) → All (λ c. c ≢ sep) a → split sep (a ++ (sep ∷ b)) ≡ a ∷ split sep b
unfolding split
split-cut sep [] b h = ground arith
split-cut sep (c ∷ a) b (h, hs) = rw (not_sep sep c h, split-cut sep a b hs)

pub split-whole : (sep : ℕ) (a : Text) → All (λ c. c ≢ sep) a → split sep a ≡ a ∷ []
unfolding split
split-whole sep [] h = refl
split-whole sep (c ∷ a) (h, hs) = rw (not_sep sep c h, split-whole sep a hs)
