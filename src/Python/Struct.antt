-- ===== src/Python/Struct.antt =====
-- Python's struct module with little-endian formats ("<..."): a format is a list of fields, and the
-- type of the packed values is computed from it.
use ecu_telemetry.Prelude.{
  ℕ, zero, suc, ◌+◌, ◌-◌, ◌^◌, ◌≤◌, ◌<◌, ◌≡◌, refl, ap, ◌∙◌, Option, none, some, List, [], ◌∷◌,
  ◌++◌, arith, append_assoc, append-nil, ltb, leb, ◌==◌, ==_refl, leb_of_le, if◌then◌else◌, length,
  take, drop, replicate, length-append, length-replicate, take-append, drop-append,
}
use ecu_telemetry.Prelude.Bits.{le_bytes, le_value, length-le_bytes, le_value-le_bytes}
use ecu_telemetry.Python.Result.{Result, ok, err, struct_error, overflow_error, ◌>>=◌}
use ecu_telemetry.Python.Floats.{Floats}

abbrev pub Bytes : Type 0
Bytes = List ℕ

-- B, H, I, Q, f, d, ns and nx
pub data Field : Type 0 where
  u8 u16 u32 u64 f32 f64 : Field
  chars pad : ℕ → Field

unfoldable pub size : Field → ℕ
size Field.u8 = 1
size Field.u16 = 2
size Field.u32 = 4
size Field.u64 = 8
size Field.f32 = 4
size Field.f64 = 8
size (Field.chars n) = n
size (Field.pad n) = n

-- struct.calcsize
unfoldable pub calcsize : List Field → ℕ
unfolding size
calcsize [] = 0
calcsize (f ∷ fs) = size f + calcsize fs

-- An integer that does not fit its field raises struct.error.
put_int : ℕ → ℕ → Result Bytes
put_int k n = if ltb n (256 ^ k) then ok (le_bytes k n) else err struct_error

put_f32 : Option ℕ → Result Bytes
put_f32 none = err overflow_error
put_f32 (some b) = ok (le_bytes 4 b)

-- A byte string of its field's length is stored as it is.
fill_whole : (n : ℕ) (b : Bytes) → length b ≡ n → take n b ++ replicate (n - length b) 0 ≡ b
fill_whole zero [] h = refl
fill_whole zero (x ∷ b) h = absurd (omega arith)
fill_whole (suc n) [] h = absurd (omega arith)
fill_whole (suc n) (x ∷ b) h = ground (arith, fill_whole n b)

unit_prop : (x : Unit {0}) → tt ≡ x
unit_prop tt = refl

module _ ⦃fl : Floats⦄ where
  -- A pad byte takes no value.
  abbrev pub Val : Field → Type 0
  Val Field.f32 = fl.Float
  Val Field.f64 = fl.Float
  Val (Field.chars n) = Bytes
  Val (Field.pad n) = Unit {0}
  Val _ = ℕ

  abbrev pub Vals : List Field → Type 0
  Vals [] = Unit {0}
  Vals (f ∷ fs) = Val f × Vals fs

  -- A byte string is cut or filled with NULs to its field.
  pub put : (f : Field) → Val f → Result Bytes
  unfolding put_int put_f32
  put Field.u8 n = put_int 1 n
  put Field.u16 n = put_int 2 n
  put Field.u32 n = put_int 4 n
  put Field.u64 n = put_int 8 n
  put Field.f32 x = put_f32 (fl.f32_pack x)
  put Field.f64 x = ok (le_bytes 8 (fl.f64_pack x))
  put (Field.chars n) b = ok (take n b ++ replicate (n - length b) 0)
  put (Field.pad n) _ = ok (replicate n 0)

  -- struct.pack
  unfoldable pub pack : (fs : List Field) → Vals fs → Result Bytes
  unfolding put
  pack [] vs = ok []
  pack (f ∷ fs) (v, vs) = put f v >>= λ b. pack fs vs >>= λ bs. ok (b ++ bs)

  pub get : (f : Field) → Bytes → Val f
  get Field.u8 b = le_value b
  get Field.u16 b = le_value b
  get Field.u32 b = le_value b
  get Field.u64 b = le_value b
  get Field.f32 b = fl.f32_unpack (le_value b)
  get Field.f64 b = fl.f64_unpack (le_value b)
  get (Field.chars n) b = b
  get (Field.pad n) b = tt

  -- The values at the front of a byte string that is long enough.
  unfoldable pub read : (fs : List Field) → Bytes → Vals fs
  unfolding get size le_value
  read [] b = tt
  read (f ∷ fs) b = (get f (take (size f) b), read fs (drop (size f) b))

  -- struct.unpack: the length must be exact; struct.unpack_from at offset 0: it must suffice.
  unfoldable pub unpack : (fs : List Field) → Bytes → Result (Vals fs)
  unfolding calcsize read
  unpack fs b = if length b == calcsize fs then ok (read fs b) else err struct_error

  unfoldable pub unpack_from : (fs : List Field) → Bytes → Result (Vals fs)
  unfolding calcsize read
  unpack_from fs b = if leb (calcsize fs) (length b) then ok (read fs b) else err struct_error

  -- The values that a field stores without loss.
  abbrev pub FitsField : (f : Field) → Val f → Type 0
  FitsField Field.u8 n = n < 2 ^ 8
  FitsField Field.u16 n = n < 2 ^ 16
  FitsField Field.u32 n = n < 2 ^ 32
  FitsField Field.u64 n = n < 2 ^ 64
  FitsField Field.f32 x = (b : ℕ) × (fl.f32_pack x ≡ some b) × (fl.f32_unpack b ≡ x)
  FitsField Field.f64 x = Unit {0}
  FitsField (Field.chars n) b = length b ≡ n
  FitsField (Field.pad n) b = Unit {0}

  abbrev pub Fits : (fs : List Field) → Vals fs → Type 0
  Fits [] vs = Unit {0}
  Fits (f ∷ fs) (v, vs) = FitsField f v × Fits fs vs

  put-get :
      (f : Field) (v : Val f)
      → FitsField f v
      → (b : Bytes) × (put f v ≡ ok b) × (length b ≡ size f) × (get f b ≡ v)
  unfolding put get put_int put_f32 size
  put-get Field.u8 n h = (le_bytes 1 n, ground arith, length-le_bytes 1 n, le_value-le_bytes 1 n h)
  put-get Field.u16 n h = (le_bytes 2 n, ground arith, length-le_bytes 2 n, le_value-le_bytes 2 n h)
  put-get Field.u32 n h = (le_bytes 4 n, ground arith, length-le_bytes 4 n, le_value-le_bytes 4 n h)
  put-get Field.u64 n h = (le_bytes 8 n, ground arith, length-le_bytes 8 n, le_value-le_bytes 8 n h)
  put-get Field.f32 x (b, p, q) =
      let whole = le_value-le_bytes 4 b (fl.f32_pack-lt x b p) in
      (le_bytes 4 b, rw p, length-le_bytes 4 b, ap fl.f32_unpack whole ∙ q)
  put-get Field.f64 x h =
      let lt = fl.f64_pack-lt x in
      (
        le_bytes 8 (fl.f64_pack x),
        refl,
        length-le_bytes 8 (fl.f64_pack x),
        ap fl.f64_unpack (le_value-le_bytes 8 (fl.f64_pack x) lt) ∙ fl.f64_unpack-f64_pack x,
      )
  put-get (Field.chars n) b h = (b, ap ok (fill_whole n b h), h, refl)
  put-get (Field.pad n) v h = (replicate n 0, refl, length-replicate n 0, unit_prop v)

  -- Packing values that fit succeeds with calcsize bytes, from which the values are read back,
  -- whatever follows them.
  pub pack-read :
      (fs : List Field) (vs : Vals fs)
      → Fits fs vs
      → (b : Bytes) × (pack fs vs ≡ ok b)
        × (length b ≡ calcsize fs)
        × ((rest : Bytes) → read fs (b ++ rest) ≡ vs)
  unfolding pack read calcsize
  pack-read [] vs h = ([], refl, refl, λ rest. unit_prop vs)
  pack-read (f ∷ fs) (v, vs) (h, hs) =
      let (b, p, l, g) = put-get f v h in
      let (bs, ps, ls, gs) = pack-read fs vs hs in
      (
        b ++ bs,
        rw (p, ps),
        rw length-append (omega arith),
        λ rest. rw (
          append_assoc b bs rest,
          take-append (size f) b (bs ++ rest) l,
          drop-append (size f) b (bs ++ rest) l,
          g,
          gs rest,
        ),
      )

  unpack_whole :
      (fs : List Field) (vs : Vals fs) (b : Bytes)
      → length b ≡ calcsize fs
      → read fs b ≡ vs
      → unpack fs b ≡ ok vs
  unfolding unpack
  unpack_whole fs vs b l r = rw (l, ==_refl (calcsize fs)) (ap ok r)

  pub unpack_from_front :
      (fs : List Field) (vs : Vals fs) (b : Bytes)
      → calcsize fs ≤ length b
      → read fs b ≡ vs
      → unpack_from fs b ≡ ok vs
  unfolding unpack_from
  unpack_from_front fs vs b l r = rw (leb_of_le (calcsize fs) (length b) l) (ap ok r)

  -- struct.unpack gives back what struct.pack was given.
  pub unpack-pack :
      (fs : List Field) (vs : Vals fs)
      → Fits fs vs
      → (b : Bytes) × (pack fs vs ≡ ok b) × (length b ≡ calcsize fs) × (unpack fs b ≡ ok vs)
  unpack-pack fs vs h =
      let (b, p, l, r) = pack-read fs vs h in
      (b, p, l, unpack_whole fs vs b l (rw append-nil at (r [])))
