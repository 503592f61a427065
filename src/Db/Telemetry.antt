-- ===== src/Db/Telemetry.antt =====
-- Queries over the telemetry table and its one-minute rollups: telemetry, _agg_raw, latest_telemetry,
-- metric_stats and rollup of backend/app/db.py. A column's AVG is the sum over the count.
pub mod Rollup
pub mod Queries
use Prim.Native.Nat.{min, max}
use ecu_telemetry.Prelude.{
  ℕ, zero, suc, ◌+◌, ◌-◌, ◌*◌, ◌/◌, Bool, true, false, ◌&&◌, Option, none, some, List, [], ◌∷◌,
  ◌++◌, map, ltb, leb, ◌==◌, if◌then◌else◌, length, drop, take,
}
use ecu_telemetry.Prelude.Tables.{select}
use ecu_telemetry.Python.Floats.{Floats}
use ecu_telemetry.Python.Text.{Text, ◌===◌}
use ecu_telemetry.Bus.{Time, second}
use ecu_telemetry.Db.Types.{Sample, Agg, Bucket, Database}

-- The start of the bucket of `width` that holds a time: CAST(ts/width AS INTEGER)*width
abbrev pub bucket_of : Time → Time → Time
bucket_of zero t = 0
bucket_of (suc w) t = t / suc w * suc w

abbrev pub minute : Time
minute = 60 * second

-- since <= ts < until
abbrev pub between : Time → Time → Time → Bool
between since until t = leb since t && ltb t until

module _ ⦃fl : Floats⦄ where
  open fl use {Float}

  unfoldable pub sum_by : (Sample → Float) → List Sample → Float
  sum_by f [] = fl.of_ℕ 0
  sum_by f (x ∷ xs) = fl.add (f x) (sum_by f xs)

  unfoldable pub least_by : (Sample → Float) → Float → List Sample → Float
  least_by f m [] = m
  least_by f m (x ∷ xs) = least_by f (if fl.lt (f x) m then f x else m) xs

  unfoldable pub greatest_by : (Sample → Float) → Float → List Sample → Float
  greatest_by f m [] = m
  greatest_by f m (x ∷ xs) = greatest_by f (if fl.lt m (f x) then f x else m) xs

  max_by : (Sample → ℕ) → List Sample → ℕ
  max_by f [] = 0
  max_by f (x ∷ xs) = max (f x) (max_by f xs)

  -- AVG(m), over one sample at least
  unfoldable pub mean_by : (Sample → Float) → Sample → List Sample → Float
  unfolding sum_by
  mean_by f x xs = fl.div (sum_by f (x ∷ xs)) (fl.of_ℕ (suc (length xs)))

  -- AVG(m), MIN(m), MAX(m)
  unfoldable pub agg_by : (Sample → Float) → Sample → List Sample → Agg
  unfolding mean_by least_by greatest_by
  agg_by f x xs = record {
    avg = mean_by f x xs;
    least = least_by f (f x) xs;
    greatest = greatest_by f (f x) xs;
  }

  -- A group of GROUP BY: its first row and the others.
  pub record Group : Type 0 where
    pub device_id : Text
    pub ts : Time
    pub first : Sample
    pub rest : List Sample

  unfoldable pub bucket_row : Group → Bucket
  unfolding agg_by mean_by max_by
  bucket_row g = record {
    device_id = g.device_id;
    ts = g.ts;
    n = suc (length g.rest);
    rpm = agg_by (λ x. x.rpm) g.first g.rest;
    temp_c = agg_by (λ x. x.temp_c) g.first g.rest;
    current_a = agg_by (λ x. x.current_a) g.first g.rest;
    voltage_v = agg_by (λ x. x.voltage_v) g.first g.rest;
    vibration_g = agg_by (λ x. x.vibration_g) g.first g.rest;
    speed_kph = agg_by (λ x. x.speed_kph) g.first g.rest;
    lat = mean_by (λ x. x.lat) g.first g.rest;
    lon = mean_by (λ x. x.lon) g.first g.rest;
    fault_flags = max_by (λ x. x.fault_flags) (g.first ∷ g.rest);
    state = max_by (λ x. x.state) (g.first ∷ g.rest);
  }

  abbrev pub same_group : Text → Time → Group → Bool
  same_group k t g = (g.device_id === k) && (g.ts == t)

  -- A row joins its group, or begins one.
  unfoldable pub join_group : Time → Sample → List Group → List Group
  join_group width x [] =
      record { device_id = x.device_id; ts = bucket_of width x.ts; first = x; rest = [] } ∷ []
  join_group width x (g ∷ gs) =
      let later = join_group width x gs in
      if same_group x.device_id (bucket_of width x.ts) g
      then record g { first = x; rest = g.first ∷ g.rest } ∷ gs
      else g ∷ later

  -- GROUP BY device_id, bucket
  unfoldable pub group_rows : Time → List Sample → List Group
  group_rows width [] = []
  group_rows width (x ∷ xs) = join_group width x (group_rows width xs)

  abbrev pub same_bucket : Bucket → Bucket → Bool
  same_bucket b c = (c.device_id === b.device_id) && (c.ts == b.ts)

  -- INSERT OR REPLACE by (device_id, bucket)
  unfoldable pub put_bucket : Bucket → List Bucket → List Bucket
  put_bucket b [] = b ∷ []
  put_bucket b (c ∷ cs) =
      let later = put_bucket b cs in if same_bucket b c then b ∷ cs else c ∷ later

  unfoldable pub put_groups : List Group → List Bucket → List Bucket
  put_groups [] table = table
  put_groups (g ∷ gs) table = put_groups gs (put_bucket (bucket_row g) table)

  abbrev upto_or_zero : Option Time → Time
  upto_or_zero none = 0
  upto_or_zero (some t) = t

  abbrev pub rolled : Database → Time
  rolled db = upto_or_zero db.rollup_upto

  -- The raw rows of the complete minutes that are not rolled up yet.
  abbrev pub due : Time → Database → List Sample
  due upto db = select (λ x. between (rolled db) (bucket_of minute upto) x.ts) db.telemetry

  unfoldable pub rollup : Time → Database → Database × ℕ
  rollup upto db =
      let end = bucket_of minute upto in
      if leb end (rolled db)
      then (db, 0)
      else let groups = group_rows minute (due upto db) in
        (
          record db { rollups = put_groups groups db.rollups; rollup_upto = some end },
          length groups,
        )
