-- ===== src/Db/Telemetry/Queries.antt =====
-- telemetry, _agg_raw, latest_telemetry and metric_stats. Rows at one time stand in no
-- order that the code relies on.
use Prim.Native.Nat.{min, max}
use ecu_telemetry.Prelude.{
  ℕ, suc, ◌+◌, ◌-◌, ◌*◌, ◌≤◌, ◌≡◌, Bool, true, ◌&&◌, Option, none, some, inl, inr, List, [], ◌∷◌,
  ◌++◌, map, All, arith, leb, Bool-cases, if◌then◌else◌, length, drop, length-drop,
}
use ecu_telemetry.Prelude.Tables.{select}
use ecu_telemetry.Prelude.Sorting.{
  sort_by, IsAscending, sort_by-All, sort_by-IsAscending, drop-All, drop-IsAscending,
}
use ecu_telemetry.Python.Floats.{Floats}
use ecu_telemetry.Python.Text.{Text, text, ◌===◌}
use ecu_telemetry.Bus.{Time, second}
use ecu_telemetry.Db.Types.{Sample, Agg, Bucket, Database}
use ecu_telemetry.Db.Telemetry.{bucket_row, group_rows, between, minute, agg_by}

-- ORDER BY ts DESC LIMIT n, reversed: the last n rows in order.
abbrev pub newest {ℓ} : {A : Type ℓ} → (A → ℕ) → ℕ → List A → List A
newest key n rows = let sorted = sort_by key rows in drop (length sorted - n) sorted

-- rows[-limit:]
abbrev pub last_of {ℓ} : {A : Type ℓ} → ℕ → List A → List A
last_of n rows = drop (length rows - n) rows

module _ ⦃fl : Floats⦄ where
  open fl use {Float}

  abbrev pub in_window : Text → Time → Time → Sample → Bool
  in_window k since until x = (x.device_id === k) && between since until x.ts

  -- _agg_raw
  unfoldable pub agg_raw : Text → Time → Time → Time → Database → List Bucket
  agg_raw k since until width db =
      map bucket_row
        (sort_by (λ g. g.ts) (group_rows width (select (in_window k since until) db.telemetry)))

  abbrev row_limit : ℕ → ℕ
  row_limit n = max 1 (min n 20_000)

  unfoldable pub raw_rows : Text → Time → Time → ℕ → Database → List Sample
  raw_rows k since until limit db =
      newest (λ x. x.ts) (row_limit limit) (select (in_window k since until) db.telemetry)

  -- Where the rolled-up buckets end.
  rolled_end : Time → List Bucket → Time
  rolled_end since [] = since
  rolled_end since (b ∷ []) = b.ts + minute
  rolled_end since (b ∷ c ∷ bs) = rolled_end since (c ∷ bs)

  -- The step of one minute: stored buckets, then raw rows that are not rolled up yet.
  unfoldable pub minute_rows : Text → Time → Time → ℕ → Database → List Bucket
  unfolding rolled_end agg_raw
  minute_rows k since until limit db =
      let stored =
        newest (λ b. b.ts) (row_limit limit)
          (select (λ b. (b.device_id === k) && between (since - minute) until b.ts) db.rollups) in
      last_of (row_limit limit)
        (stored ++ agg_raw k (max (rolled_end since stored) since) until minute db)

  pub data Rows : Type 0 where
    raw : List Sample → Rows
    buckets : List Bucket → Rows

  abbrev time_or : Option Time → Time → Time
  time_or none t = t
  time_or (some t) u = t

  unfoldable pub telemetry : Text → Option Time → Option Time → ℕ → Text → Time → Database → Rows
  unfolding minute_rows raw_rows agg_raw
  telemetry k since until limit step now db =
      let from = time_or since (now - 300 * second) in
      let to = time_or until (now + second) in
      if step === text "1m"
      then Rows.buckets (minute_rows k from to limit db)
      else if step === text "60s"
      then Rows.buckets (minute_rows k from to limit db)
      else if step === text "10s"
      then Rows.buckets (last_of (row_limit limit) (agg_raw k from to (10 * second) db))
      else Rows.raw (raw_rows k from to limit db)

  head_of : List Sample → Option Sample
  head_of [] = none
  head_of (x ∷ xs) = some x

  unfoldable pub latest_telemetry : Text → Database → Option Sample
  unfolding head_of
  latest_telemetry k db =
      head_of (newest (λ x. x.ts) 1 (select (λ x. x.device_id === k) db.telemetry))

  abbrev rounded : Agg → Agg
  rounded a = record {
    avg = fl.round a.avg 3;
    least = fl.round a.least 3;
    greatest = fl.round a.greatest 3;
  }

  -- How many samples, and a metric's figures by its name.
  pub record MetricStats : Type 0 where
    pub n : ℕ
    pub metrics : List (Text × Agg)

  stats_of : List Sample → MetricStats
  stats_of [] = record { n = 0; metrics = [] }
  stats_of (x ∷ xs) =
      let figures = λ (f : Sample → Float). rounded (agg_by f x xs) in
      record {
        n = suc (length xs);
        metrics =
            (text "rpm", figures (λ x. x.rpm))
            ∷ (text "temp_c", figures (λ x. x.temp_c))
            ∷ (text "current_a", figures (λ x. x.current_a))
            ∷ (text "voltage_v", figures (λ x. x.voltage_v))
            ∷ (text "vibration_g", figures (λ x. x.vibration_g))
            ∷ (text "speed_kph", figures (λ x. x.speed_kph))
            ∷ [];
      }

  unfoldable pub metric_stats : Text → Time → Time → Database → MetricStats
  unfolding stats_of
  metric_stats k window now db =
      stats_of (select (λ x. (x.device_id === k) && leb (now - window) x.ts) db.telemetry)

  select-in_window :
      (k : Text) (since until : Time) (xs : List Sample)
      → All (λ x. in_window k since until x ≡ true) (select (in_window k since until) xs)
  select-in_window k since until [] = tt
  select-in_window k since until (x ∷ xs) = elim (Bool-cases (in_window k since until x)) [
    | inl e ↦ rw e (e, select-in_window k since until xs)
    | inr e ↦ rw e (select-in_window k since until xs)
  ]

  -- A raw query answers with rows of the device inside the window, in the order of time, and
  -- with 20000 at most.
  pub raw_rows-in_window :
      (k : Text) (since until : Time) (limit : ℕ) (db : Database)
      → All (λ x. in_window k since until x ≡ true) (raw_rows k since until limit db)
        × IsAscending (λ x. x.ts) (raw_rows k since until limit db)
        × (length (raw_rows k since until limit db) ≤ 20_000)
  unfolding raw_rows
  raw_rows-in_window k since until limit db =
      let key : Sample → ℕ = λ x. x.ts in
      let rows = select (in_window k since until) db.telemetry in
      let n = length (sort_by key rows) - max 1 (min limit 20_000) in
      (
        drop-All key _ n (sort_by key rows)
            (sort_by-All key _ rows (select-in_window k since until db.telemetry)),
        drop-IsAscending key n (sort_by key rows) (sort_by-IsAscending key rows),
        omega (arith, length-drop n (sort_by key rows)),
      )
