-- ===== src/Ingest/Dispatch/Offline.antt =====
-- What _offline_loop of backend/app/ingest.py finds: silent devices.
pub mod Rows
use mathlib.Core.Path.{subst}
use ecu_telemetry.Prelude.{
  ◌+◌, ◌<◌, ◌≡◌, refl, sym, ap, ◌∙◌, inl, inr, Bool, true, false, ◌&&◌, Option, none, some, List,
  [], ◌∷◌, arith, Bool-cases, if◌then◌else◌, All,
}
use ecu_telemetry.Prelude.Tables.{Dict, lookup, find, update, lookup-insert}
use ecu_telemetry.Python.Floats.{Floats}
use ecu_telemetry.Python.Text.{Text, ◌===◌, ===_iff, ===_sound, ===_refl}
use ecu_telemetry.Bus.{Time}
use ecu_telemetry.Db.Types.{Device, Database}
use ecu_telemetry.Db.Devices.{is_device, set_online, get_device}
use ecu_telemetry.World.Types.{Rules}
use ecu_telemetry.Db.Alerts.{open_alert}
use ecu_telemetry.Engine.Alerts.{offline}
use ecu_telemetry.Engine.Alerts.Lifecycle.Keeps.{
  IsOpen, on_offline-keeps, on_offline-opens, on_offline-rules, on_offline-devices,
}
use ecu_telemetry.Ingest.Stats.{DeviceStats}
use ecu_telemetry.Ingest.State.{
  Ingest, st, set_st, with_db, with_engine, announce, set_presence, offline_after,
}
use ecu_telemetry.Ingest.Dispatch.{overdue, scan_stats, scan_devices, offline_scan}

module _ ⦃fl : Floats⦄ where
  -- The devices table says that the device is online.
  unfoldable pub is_online : Database → Text → Bool
  unfolding get_device
  is_online db d = elim (get_device db d) [ none ↦ false | some r ↦ r.online ]

  -- The statistics and the devices table have the device offline, and its offline alert is open.
  abbrev pub IsReported : Text → Ingest → Type 0
  IsReported d i =
      ((st d i).online ≡ false) × (is_online i.world.db d ≡ false) × IsOpen d offline i.world.db

  abbrev IsEnabled : Ingest → Type 0
  IsEnabled i = i.world.engine.rules.offline_enabled ≡ true

  -- Writing false in one row leaves no row with more.
  find-set_online :
      (j d : Text) (ds : List Device)
      → (elim (find (is_device d) (update (is_device j) (λ r. record r { online = false }) ds)) [
        | none ↦ false
        | some r ↦ r.online
      ])
        ≡ (if j === d
            then false
            else elim (find (is_device d) ds) [ none ↦ false | some r ↦ r.online ])
  find-set_online j d [] = ground arith
  find-set_online j d (r ∷ ds) =
      ground
        (arith, ===_iff r.device_id j, ===_iff r.device_id d, ===_iff j d, find-set_online j d ds)

  row_online : Text → List Device → Bool
  row_online d ds = elim (find (is_device d) ds) [ none ↦ false | some r ↦ r.online ]

  -- The statistics after writing offline for a device.
  stats-offline :
      (j d : Text) (now : Time) (i : Ingest)
      → (st d (set_presence j false now i)).online ≡ (if j === d then false else (st d i).online)
  unfolding st set_presence announce with_engine with_db set_st
  stats-offline j d now i =
      rw (lookup-insert j d (record (st j i) { online = false }) i.stats)
        (elim (Bool-cases (j === d)) [ inl e ↦ rw e refl | inr e ↦ rw e refl ])

  table-offline :
      (j d : Text) (now : Time) (i : Ingest)
      → is_online (set_presence j false now i).world.db d
        ≡ (if j === d then false else is_online i.world.db d)
  unfolding is_online get_device set_presence announce with_engine with_db set_online row_online
      set_st
  table-offline j d now i =
      let i' = with_db (set_online j false) (set_st j (record (st j i) { online = false }) i) in
      ap (row_online d) (on_offline-devices j now i'.world) ∙ find-set_online j d i.world.db.devices

  presence-rules :
      (j : Text) (now : Time) (i : Ingest) → IsEnabled i → IsEnabled (set_presence j false now i)
  unfolding set_presence announce with_engine with_db set_online set_st
  presence-rules j now i e =
      let i' = with_db (set_online j false) (set_st j (record (st j i) { online = false }) i) in
      ap (λ (r : Rules). r.offline_enabled) (on_offline-rules j now i'.world) ∙ e

  if-false : (b c : Bool) → c ≡ false → (if b then false else c) ≡ false
  if-false true c e = refl
  if-false false c e = e

  presence-keeps :
      (j d : Text) (now : Time) (i : Ingest)
      → IsReported d i
      → IsReported d (set_presence j false now i)
  unfolding set_presence announce with_engine with_db set_online set_st open_alert
  presence-keeps j d now i (off, row, alert) =
      let i' = with_db (set_online j false) (set_st j (record (st j i) { online = false }) i) in
      (
        stats-offline j d now i ∙ if-false (j === d) _ off,
        table-offline j d now i ∙ if-false (j === d) _ row,
        on_offline-keeps j d offline now i'.world alert,
      )

  presence-reports :
      (d : Text) (now : Time) (i : Ingest) → IsEnabled i → IsReported d (set_presence d false now i)
  unfolding set_presence announce with_engine with_db set_online set_st
  presence-reports d now i e =
      let i' = with_db (set_online d false) (set_st d (record (st d i) { online = false }) i) in
      let same = ap (λ (b : Bool). if b then false else (st d i).online) (===_refl d) in
      let row = ap (λ (b : Bool). if b then false else is_online i.world.db d) (===_refl d) in
      (
        stats-offline d d now i ∙ same,
        table-offline d d now i ∙ row,
        on_offline-opens d now i'.world e,
      )

  if_kept :
      (P : Ingest → Type 0) (b : Bool) (j : Text) (now : Time) (i : Ingest)
      → P (set_presence j false now i)
      → P i
      → P (if b then set_presence j false now i else i)
  if_kept P true j now i p q = p
  if_kept P false j now i p q = q

  if_taken :
      (P : Ingest → Type 0) (b : Bool) (j : Text) (now : Time) (i : Ingest)
      → b ≡ true
      → P (set_presence j false now i)
      → P (if b then set_presence j false now i else i)
  if_taken P true j now i e p = p
  if_taken P false j now i e p = ground arith

  scan_stats-keeps :
      (ss : List (Text × DeviceStats)) (d : Text) (now : Time) (i : Ingest)
      → IsReported d i
      → IsReported d (scan_stats ss now i)
  unfolding scan_stats
  scan_stats-keeps [] d now i h = h
  scan_stats-keeps ((j, s) ∷ ss) d now i h = scan_stats-keeps ss d now _ (
      if_kept (IsReported d) (s.online && overdue s.last_seen now) j now i
        (presence-keeps j d now i h) h)

  scan_devices-keeps :
      (ds : List Device) (d : Text) (now : Time) (i : Ingest)
      → IsReported d i
      → IsReported d (scan_devices ds now i)
  unfolding scan_devices
  scan_devices-keeps [] d now i h = h
  scan_devices-keeps (r ∷ ds) d now i h =
      scan_devices-keeps ds d now _
        (if_kept (IsReported d) _ r.device_id now i (presence-keeps r.device_id d now i h) h)

  is_due :
      (s : DeviceStats) (t now : Time)
      → s.online ≡ true
      → s.last_seen ≡ some t
      → 0 < t
      → t + offline_after < now
      → (s.online && overdue s.last_seen now) ≡ true
  is_due s t now on seen pos late = rw (on, seen) (ground arith)

  found :
      {A : Type 0} (a b : A) (o : Option A) (c : Bool)
      → c ≡ true
      → (if c then some a else o) ≡ some b
      → a ≡ b
  found a b o true e h = ground arith
  found a b o false e h = ground arith

  later :
      {A : Type 0} (a b : A) (o : Option A) (c : Bool)
      → c ≡ false
      → (if c then some a else o) ≡ some b
      → o ≡ some b
  later a b o true e h = ground arith
  later a b o false e h = h

  scan_stats-reports :
      (ss : List (Text × DeviceStats)) (d : Text) (s : DeviceStats) (now : Time) (i : Ingest)
      → lookup d ss ≡ some s
      → (s.online && overdue s.last_seen now) ≡ true
      → IsEnabled i
      → IsReported d (scan_stats ss now i)
  unfolding scan_stats lookup
  scan_stats-reports [] d s now i h due e = ground arith
  scan_stats-reports ((j, x) ∷ ss) d s now i h due e = elim (Bool-cases (j === d)) [
    | inl y ↦ scan_stats-keeps ss d now _ (
        if_taken (IsReported d) (x.online && overdue x.last_seen now) j now i
          (subst (λ (z : DeviceStats). (z.online && overdue z.last_seen now) ≡ true)
            (sym (found x s (lookup d ss) (j === d) y h)) due)
          (subst (λ (k : Text). IsReported d (set_presence k false now i)) (sym (===_sound j d y))
            (presence-reports d now i e)))
    | inr n ↦ scan_stats-reports ss d s now _ (later x s (lookup d ss) (j === d) n h) due (
        if_kept IsEnabled (x.online && overdue x.last_seen now) j now i (presence-rules j now i e)
          e)
  ]

  -- A device whose statistics have it online and heard of more than 15 seconds ago is, after one pass
  -- of the loop with the offline rule enabled, offline in the statistics and in the devices table, and
  -- an offline alert of it is open.
  pub offline_scan-reports :
      (d : Text) (s : DeviceStats) (t now : Time) (i : Ingest)
      → lookup d i.stats ≡ some s
      → s.online ≡ true
      → s.last_seen ≡ some t
      → 0 < t
      → t + offline_after < now
      → i.world.engine.rules.offline_enabled ≡ true
      → IsReported d (offline_scan now i)
  unfolding offline_scan
  offline_scan-reports d s t now i h on seen pos late e =
      let i' = scan_stats i.stats now i in
      scan_devices-keeps i'.world.db.devices d now i'
        (scan_stats-reports i.stats d s now i h (is_due s t now on seen pos late) e)
