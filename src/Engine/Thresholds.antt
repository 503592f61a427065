-- ===== src/Engine/Thresholds.antt =====
-- The limits of a device and of a threshold: config_for, invalidate_config, _hw_for, _threshold_spec
-- and _resolve_value of backend/app/anomaly.py.
use ecu_telemetry.Prelude.{
  ℕ, Bool, true, false, Option, none, some, List, [], ◌∷◌, ◌==◌, ◌≡◌, refl, ◌∙◌, if◌then◌else◌,
  drop,
}
use ecu_telemetry.Prelude.Tables.{lookup, insert, remove}
use ecu_telemetry.Python.Floats.{Floats}
use ecu_telemetry.Python.Text.{Text, text, ◌===◌}
use ecu_telemetry.Db.Types.{Device, DeviceConfig, Database}
use ecu_telemetry.Db.Config.{current_config}
use ecu_telemetry.Db.Devices.{get_device}
use ecu_telemetry.World.Types.{Op, ValueSpec, Override, Threshold, Limits, World}

-- s.rsplit(sep, 1), none when sep does not occur
unfoldable pub rsplit : ℕ → Text → Option (Text × Text)
rsplit sep [] = none
rsplit sep (c ∷ s) = elim (rsplit sep s) [
  | none ↦ if c == sep then some ([], s) else none
  | some (key, num) ↦ some (c ∷ key, num)
]

-- s.replace(" ", "")
unfoldable pub no_spaces : Text → Text
no_spaces [] = []
no_spaces (c ∷ s) = let rest = no_spaces s in if c == b' ' then rest else c ∷ rest

unfoldable pub occurs : ℕ → Text → Bool
occurs c [] = false
occurs c (d ∷ s) = if c == d then true else occurs c s

module _ ⦃fl : Floats⦄ where
  open fl use {Float}

  abbrev pub default_config : Limits
  default_config = record {
    telemetry_hz = 10;
    log_level = 1;
    rpm_limit = fl.lit 60000 1;
    temp_limit_c = fl.lit 900 1;
    current_limit_a = fl.lit 1200 1;
  }

  -- `{k: row[k] for k in DEFAULT_CONFIG} if row else dict(DEFAULT_CONFIG)`
  abbrev pub row_limits : Option DeviceConfig → Limits
  row_limits none = default_config
  row_limits (some row) = record {
    telemetry_hz = row.telemetry_hz;
    log_level = row.log_level;
    rpm_limit = row.rpm_limit;
    temp_limit_c = row.temp_limit_c;
    current_limit_a = row.current_limit_a;
  }

  config_cached : Option Limits → Text → World → World × Limits
  config_cached (some cfg) device_id w = (w, cfg)
  config_cached none device_id w =
      let cfg = row_limits (current_config w.db device_id) in
      (
        record w {
          engine = record w.engine { config_cache = insert device_id cfg w.engine.config_cache };
        },
        cfg,
      )

  unfoldable pub config_for : Text → World → World × Limits
  unfolding config_cached
  config_for device_id w = config_cached (lookup device_id w.engine.config_cache) device_id w

  unfoldable pub invalidate_config : Text → World → World
  invalidate_config device_id w = record w {
    engine = record w.engine {
      config_cache = remove device_id w.engine.config_cache;
      hw_cache = remove device_id w.engine.hw_cache;
    };
  }

  -- `str((row or {}).get("hw_model") or "")`
  abbrev pub hw_of : Option Device → Text
  hw_of none = []
  hw_of (some d) = elim d.hw_model [ none ↦ [] | some hw ↦ hw ]

  hw_cached : Option Text → Text → World → World × Text
  hw_cached (some hw) device_id w = (w, hw)
  hw_cached none device_id w =
      let hw = hw_of (get_device w.db device_id) in
      (
        record w { engine = record w.engine { hw_cache = insert device_id hw w.engine.hw_cache } },
        hw,
      )

  unfoldable pub hw_for : Text → World → World × Text
  unfolding hw_cached
  hw_for device_id w = hw_cached (lookup device_id w.engine.hw_cache) device_id w

  abbrev same_device : Option Text → Text → Bool
  same_device none device_id = false
  same_device (some d) device_id = d === device_id

  -- `o.get("hw_model") and o["hw_model"] == self._hw_for(device_id)`
  hw_hit : Option Text → Text → World → World × Bool
  unfolding hw_for
  hw_hit none device_id w = (w, false)
  hw_hit (some []) device_id w = (w, false)
  hw_hit (some (c ∷ m)) device_id w = let (w', hw) = hw_for device_id w in (w', (c ∷ m) === hw)

  override_hit : Override → Text → World → World × Bool
  unfolding hw_hit
  override_hit o device_id w =
      if same_device o.device_id device_id then (w, true) else hw_hit o.hw_model device_id w

  abbrev get_or : {A : Type 0} → Option A → A → A
  get_or none x = x
  get_or (some y) x = y

  overrides_loop : ValueSpec → Text → List Override → Text → World → World × ValueSpec × Text
  unfolding override_hit
  overrides_loop spec severity [] device_id w = (w, spec, severity)
  overrides_loop spec severity (o ∷ os) device_id w =
      let (w', hit) = override_hit o device_id w in
      let rest = overrides_loop spec severity os device_id w' in
      if hit then (w', get_or o.value spec, get_or o.severity severity) else rest

  unfoldable pub threshold_spec : Threshold → Text → World → World × ValueSpec × Text
  unfolding overrides_loop
  threshold_spec rule device_id w =
      overrides_loop rule.value rule.severity rule.overrides device_id w

  config_cached-db : (o : Option Limits) (d : Text) (w : World) → (config_cached o d w).0.db ≡ w.db
  unfolding config_cached
  config_cached-db none d w = refl
  config_cached-db (some cfg) d w = refl

  pub config_for-db : (d : Text) (w : World) → (config_for d w).0.db ≡ w.db
  unfolding config_for
  config_for-db d w = config_cached-db (lookup d w.engine.config_cache) d w

  hw_cached-db : (o : Option Text) (d : Text) (w : World) → (hw_cached o d w).0.db ≡ w.db
  unfolding hw_cached
  hw_cached-db none d w = refl
  hw_cached-db (some hw) d w = refl

  hw_hit-db : (o : Option Text) (d : Text) (w : World) → (hw_hit o d w).0.db ≡ w.db
  unfolding hw_hit hw_for
  hw_hit-db none d w = refl
  hw_hit-db (some []) d w = refl
  hw_hit-db (some (c ∷ m)) d w = hw_cached-db (lookup d w.engine.hw_cache) d w

  hit_if-db :
      (b : Bool) (o : Option Text) (d : Text) (w : World)
      → (if b then (w, true) else hw_hit o d w).0.db ≡ w.db
  hit_if-db true o d w = refl
  hit_if-db false o d w = hw_hit-db o d w

  override_hit-db : (o : Override) (d : Text) (w : World) → (override_hit o d w).0.db ≡ w.db
  unfolding override_hit
  override_hit-db o d w = hit_if-db (same_device o.device_id d) o.hw_model d w

  spec_if-db :
      (b : Bool) (x y : World × ValueSpec × Text) (db : Database)
      → x.0.db ≡ db
      → y.0.db ≡ db
      → (if b then x else y).0.db ≡ db
  spec_if-db true x y db p q = p
  spec_if-db false x y db p q = q

  overrides_loop-db :
      (v : ValueSpec) (s : Text) (os : List Override) (d : Text) (w : World)
      → (overrides_loop v s os d w).0.db ≡ w.db
  unfolding overrides_loop
  overrides_loop-db v s [] d w = refl
  overrides_loop-db v s (o ∷ os) d w =
      let h = override_hit-db o d w in
      spec_if-db ((override_hit o d w).1) _ _ w.db h
        (overrides_loop-db v s os d ((override_hit o d w).0) ∙ h)

  -- Looking a threshold up fills a cache and leaves the database.
  pub threshold_spec-db :
      (rule : Threshold) (d : Text) (w : World) → (threshold_spec rule d w).0.db ≡ w.db
  unfolding threshold_spec
  threshold_spec-db rule d w = overrides_loop-db rule.value rule.severity rule.overrides d w

  -- cfg.get(key), as a float
  unfoldable pub limit_of : Text → Limits → Option Float
  limit_of key cfg =
      if key === text "telemetry_hz"
      then some (fl.of_ℕ cfg.telemetry_hz)
      else if key === text "log_level"
      then some (fl.of_ℕ cfg.log_level)
      else if key === text "rpm_limit"
      then some cfg.rpm_limit
      else if key === text "temp_limit_c"
      then some cfg.temp_limit_c
      else if key === text "current_limit_a"
      then some cfg.current_limit_a
      else none

  abbrev add_offset : Float → Option Float → Option Float
  add_offset off none = none
  add_offset off (some base) = some (fl.add base off)

  -- The parts around a sign: the offset is a number, or the value is None.
  split_value : Float → Option (Text × Text) → Limits → Option Float
  unfolding limit_of
  split_value sign none cfg = none
  split_value sign (some (key, num)) cfg = elim (fl.parse num) [
    | none ↦ none
    | some off ↦ add_offset (fl.mul off sign) (limit_of key cfg)
  ]

  unfoldable pub resolve_value : ValueSpec → Limits → Option Float
  unfolding split_value limit_of
  resolve_value (ValueSpec.number x) cfg = some x
  resolve_value (ValueSpec.expression spec) cfg =
      let s = no_spaces spec in
      if occurs b'+' (drop 1 s)
      then split_value (fl.of_ℕ 1) (rsplit b'+' s) cfg
      else if occurs b'-' (drop 1 s)
      then split_value (fl.sub (fl.of_ℕ 0) (fl.of_ℕ 1)) (rsplit b'-' s) cfg
      else add_offset (fl.of_ℕ 0) (limit_of s cfg)

  unfoldable pub compare : Op → Float → Float → Bool
  compare Op.gt x thr = fl.lt thr x
  compare Op.lt x thr = fl.lt x thr
  compare Op.ge x thr = fl.le thr x
  compare Op.le x thr = fl.le x thr
