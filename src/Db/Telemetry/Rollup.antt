-- ===== src/Db/Telemetry/Rollup.antt =====
-- Every raw row of a complete minute is rolled up once.
use ecu_telemetry.Prelude.{
  ℕ, suc, ◌+◌, ◌*◌, ◌/◌, ◌≤◌, ◌<◌, ◌≡◌, refl, ◌∙◌, ap, inl, inr, false, List, [], ◌∷◌, All, arith,
  leb, leb_of_le, Bool-cases, length,
}
use ecu_telemetry.Prelude.Tables.{select}
use ecu_telemetry.Python.Floats.{Floats}
use ecu_telemetry.Python.Text.{Text}
use ecu_telemetry.Bus.{Time}
use ecu_telemetry.Db.Types.{Sample, Bucket, Database}
use ecu_telemetry.Db.Telemetry.{
  Group, bucket_of, minute, between, bucket_row, same_group, join_group, group_rows, same_bucket,
  put_bucket, put_groups, rolled, due, rollup,
}

module _ ⦃fl : Floats⦄ where
  -- How many raw rows a table of buckets stands for, and a list of groups.
  abbrev pub total : List Bucket → ℕ
  total [] = 0
  total (c ∷ cs) = c.n + total cs

  abbrev size : List Group → ℕ
  size [] = 0
  size (g ∷ gs) = suc (length g.rest) + size gs

  join_group-size :
      (w : Time) (x : Sample) (gs : List Group) → size (join_group w x gs) ≡ suc (size gs)
  unfolding join_group
  join_group-size w x [] = refl
  join_group-size w x (g ∷ gs) = elim (Bool-cases (same_group x.device_id (bucket_of w x.ts) g)) [
    | inl e ↦ rw e (omega arith)
    | inr e ↦ rw e (omega (arith, join_group-size w x gs))
  ]

  group_rows-size : (w : Time) (xs : List Sample) → size (group_rows w xs) ≡ length xs
  unfolding group_rows
  group_rows-size w [] = refl
  group_rows-size w (x ∷ xs) = join_group-size w x (group_rows w xs) ∙ ap suc (group_rows-size w xs)

  -- What holds of the keys of the rows holds of the groups' keys.
  join_group-All :
      (P : Text → Time → Type 0) (w : Time) (x : Sample) (gs : List Group)
      → P x.device_id (bucket_of w x.ts)
      → All (λ g. P g.device_id g.ts) gs
      → All (λ g. P g.device_id g.ts) (join_group w x gs)
  unfolding join_group
  join_group-All P w x [] p h = (p, tt)
  join_group-All P w x (g ∷ gs) p (q, h) =
      elim (Bool-cases (same_group x.device_id (bucket_of w x.ts) g)) [
        | inl e ↦ rw e (q, h)
        | inr e ↦ rw e (q, join_group-All P w x gs p h)
      ]

  group_rows-All :
      (P : Text → Time → Type 0) (w : Time) (xs : List Sample)
      → All (λ x. P x.device_id (bucket_of w x.ts)) xs
      → All (λ g. P g.device_id g.ts) (group_rows w xs)
  unfolding group_rows
  group_rows-All P w [] h = h
  group_rows-All P w (x ∷ xs) (p, h) =
      join_group-All P w x (group_rows w xs) p (group_rows-All P w xs h)

  -- No two groups have one key.
  abbrev Distinct : List Group → Type 0
  Distinct [] = Unit {0}
  Distinct (g ∷ gs) = All (λ h. same_group h.device_id h.ts g ≡ false) gs × Distinct gs

  join_group-Distinct :
      (w : Time) (x : Sample) (gs : List Group) → Distinct gs → Distinct (join_group w x gs)
  unfolding join_group
  join_group-Distinct w x [] h = (tt, tt)
  join_group-Distinct w x (g ∷ gs) (p, h) =
      elim (Bool-cases (same_group x.device_id (bucket_of w x.ts) g)) [
        | inl e ↦ rw e (p, h)
        | inr e ↦ rw e (
          join_group-All (λ d t. same_group d t g ≡ false) w x gs e p,
          join_group-Distinct w x gs h,
        )
      ]

  group_rows-Distinct : (w : Time) (xs : List Sample) → Distinct (group_rows w xs)
  unfolding group_rows
  group_rows-Distinct w [] = tt
  group_rows-Distinct w (x ∷ xs) =
      join_group-Distinct w x (group_rows w xs) (group_rows-Distinct w xs)

  abbrev Fresh : Bucket → List Bucket → Type 0
  Fresh b table = All (λ c. same_bucket b c ≡ false) table

  put_bucket-total :
      (b : Bucket) (table : List Bucket)
      → Fresh b table
      → total (put_bucket b table) ≡ total table + b.n
  unfolding put_bucket
  put_bucket-total b [] h = omega arith
  put_bucket-total b (c ∷ cs) (e, h) = rw e (omega (arith, put_bucket-total b cs h))

  put_bucket-All :
      (P : Bucket → Type 0) (b : Bucket) (table : List Bucket)
      → P b
      → All P table
      → All P (put_bucket b table)
  unfolding put_bucket
  put_bucket-All P b [] p h = (p, tt)
  put_bucket-All P b (c ∷ cs) p (q, h) = elim (Bool-cases (same_bucket b c)) [
    | inl e ↦ rw e (p, h)
    | inr e ↦ rw e (q, put_bucket-All P b cs p h)
  ]

  Fresh-after :
      (g : Group) (gs : List Group) (table : List Bucket)
      → All (λ h. same_group h.device_id h.ts g ≡ false) gs
      → All (λ h. Fresh (bucket_row h) table) gs
      → All (λ h. Fresh (bucket_row h) (put_bucket (bucket_row g) table)) gs
  unfolding bucket_row
  Fresh-after g [] table p h = tt
  Fresh-after g (k ∷ gs) table (e, p) (f, h) = (
    put_bucket-All (λ c. same_bucket (bucket_row k) c ≡ false) (bucket_row g) table e f,
    Fresh-after g gs table p h,
  )

  bucket_row-n : (g : Group) → (bucket_row g).n ≡ suc (length g.rest)
  unfolding bucket_row
  bucket_row-n g = refl

  put_groups-total :
      (gs : List Group) (table : List Bucket)
      → Distinct gs
      → All (λ g. Fresh (bucket_row g) table) gs
      → total (put_groups gs table) ≡ total table + size gs
  unfolding put_groups
  put_groups-total [] table d f = omega arith
  put_groups-total (g ∷ gs) table (p, d) (e, f) =
      let rest =
        put_groups-total gs (put_bucket (bucket_row g) table) d (Fresh-after g gs table p f) in
      rest ∙ omega (arith, put_bucket-total (bucket_row g) table e, bucket_row-n g)

  put_groups-All :
      (P : Bucket → Type 0) (gs : List Group) (table : List Bucket)
      → All (λ g. P (bucket_row g)) gs
      → All P table
      → All P (put_groups gs table)
  unfolding put_groups
  put_groups-All P [] table p h = h
  put_groups-All P (g ∷ gs) table (q, p) h =
      put_groups-All P gs (put_bucket (bucket_row g) table) p
        (put_bucket-All P (bucket_row g) table q h)

  -- The rows are rolled up to the start of a minute, and no bucket is later.
  pub record IsRolled (db : Database) : Type 0 where
    pub minutes : ℕ
    pub aligned : rolled db ≡ minutes * minute
    pub before : All (λ c. c.ts < rolled db) db.rollups

  due_rows :
      (start k end : ℕ) (xs : List Sample)
      → start ≡ k * minute
      → All
          (λ x. (start ≤ bucket_of minute x.ts) × (bucket_of minute x.ts < end))
          (select (λ x. between start end x.ts) xs)
  due_rows start k end [] a = tt
  due_rows start k end (x ∷ xs) a = elim (Bool-cases (between start end x.ts)) [
    | inl e ↦ rw e (ground (arith, e, a), due_rows start k end xs a)
    | inr e ↦ rw e (due_rows start k end xs a)
  ]

  none_due :
      (start end : ℕ) (xs : List Sample)
      → end ≤ start
      → length (select (λ x. between start end x.ts) xs) ≡ 0
  none_due start end [] h = refl
  none_due start end (x ∷ xs) h = ground (arith, none_due start end xs h)

  Fresh-row :
      (g : Group) (start : ℕ) (table : List Bucket)
      → start ≤ g.ts
      → All (λ c. c.ts < start) table
      → Fresh (bucket_row g) table
  unfolding bucket_row
  Fresh-row g start [] h t = tt
  Fresh-row g start (c ∷ cs) h (t, ts) = (ground arith, Fresh-row g start cs h ts)

  Fresh-rows :
      (gs : List Group) (start end : ℕ) (table : List Bucket)
      → All (λ g. (start ≤ g.ts) × (g.ts < end)) gs
      → All (λ c. c.ts < start) table
      → All (λ g. Fresh (bucket_row g) table) gs
  Fresh-rows [] start end table h t = tt
  Fresh-rows (g ∷ gs) start end table ((l, u), h) t =
      (Fresh-row g start table l t, Fresh-rows gs start end table h t)

  row_before :
      (gs : List Group) (start end : ℕ)
      → All (λ g. (start ≤ g.ts) × (g.ts < end)) gs
      → All (λ g. (bucket_row g).ts < end) gs
  unfolding bucket_row
  row_before [] start end h = tt
  row_before (g ∷ gs) start end ((l, u), h) = (u, row_before gs start end h)

  still_before :
      (start end : ℕ) (table : List Bucket)
      → start ≤ end
      → All (λ c. c.ts < start) table
      → All (λ c. c.ts < end) table
  still_before start end [] h t = tt
  still_before start end (c ∷ cs) h (t, ts) = (omega arith, still_before start end cs h ts)

  rolled_step :
      (upto : Time) (db : Database)
      → IsRolled db
      → leb (bucket_of minute upto) (rolled db) ≡ false
      → let table = put_groups (group_rows minute (due upto db)) db.rollups in
        (total table ≡ total db.rollups + length (due upto db))
        × All (λ c. c.ts < bucket_of minute upto) table
  rolled_step upto db r e =
      let start = rolled db in
      let end = bucket_of minute upto in
      let gs = group_rows minute (due upto db) in
      let keys =
        group_rows-All (λ d t. (start ≤ t) × (t < end)) minute (due upto db)
          (due_rows start r.minutes end db.telemetry r.aligned) in
      let later : start ≤ end = ground (arith, e) in
      (
        put_groups-total gs db.rollups (group_rows-Distinct minute (due upto db))
              (Fresh-rows gs start end db.rollups keys r.before)
            ∙ ap (λ (n : ℕ). total db.rollups + n) (group_rows-size minute (due upto db)),
        put_groups-All (λ c. c.ts < end) gs db.rollups (row_before gs start end keys)
            (still_before start end db.rollups later r.before),
      )

  -- Where the buckets end at a whole minute before which they all lie, a rollup keeps that so, and
  -- the buckets stand for as many more raw rows as lie in the complete minutes since.
  pub rollup-total :
      (upto : Time) (db : Database)
      → IsRolled db
      → (total (rollup upto db).0.rollups ≡ total db.rollups + length (due upto db))
        × IsRolled (rollup upto db).0
  unfolding rollup
  rollup-total upto db r = elim (Bool-cases (leb (bucket_of minute upto) (rolled db))) [
    | inl e ↦ rw e (
      omega (arith, none_due (rolled db) (bucket_of minute upto) db.telemetry (ground (arith, e))),
      r,
    )
    | inr e ↦ rw e (
        let (t, b) = rolled_step upto db r e in
        (t, record { minutes = upto / minute; aligned = refl; before = b }))
  ]

  -- A second rollup at the same time changes nothing.
  pub rollup_twice :
      (upto : Time) (db : Database) → rollup upto (rollup upto db).0 ≡ ((rollup upto db).0, 0)
  unfolding rollup
  rollup_twice upto db = elim (Bool-cases (leb (bucket_of minute upto) (rolled db))) [
    | inl e ↦ rw (e, e) refl
    | inr e ↦ rw (e, leb_of_le (bucket_of minute upto) (bucket_of minute upto) (omega arith)) refl
  ]
