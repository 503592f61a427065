-- ===== src/Ingest/Dispatch/Offline/Rows.antt =====
-- What _offline_loop of backend/app/ingest.py does to the row of a device that is not online in the
-- statistics, as after a restart of the server.
use ecu_telemetry.Prelude.{
  ◌+◌, ◌<◌, ◌≡◌, refl, ap, ◌∙◌, inl, inr, Bool, true, false, ◌&&◌, Option, none, some, List, [],
  ◌∷◌, arith, Bool-cases, if◌then◌else◌, All,
}
use ecu_telemetry.Prelude.Tables.{lookup, find, update, lookup-insert}
use ecu_telemetry.Python.Floats.{Floats}
use ecu_telemetry.Python.Text.{Text, ◌===◌, ===_iff, ===_sound}
use ecu_telemetry.Bus.{Time}
use ecu_telemetry.Db.Types.{Device}
use ecu_telemetry.Db.Devices.{is_device, set_online, get_device}
use ecu_telemetry.Engine.Alerts.Lifecycle.Keeps.{on_offline-devices}
use ecu_telemetry.Ingest.Stats.{DeviceStats}
use ecu_telemetry.Ingest.State.{
  Ingest, st, set_st, with_db, with_engine, announce, set_presence, offline_after,
}
use ecu_telemetry.Ingest.Dispatch.{overdue, scan_stats, scan_devices, offline_scan}
use ecu_telemetry.Ingest.Dispatch.Offline.{
  is_online, table-offline, if-false, if_kept, if_taken, found, later,
}

module _ ⦃fl : Floats⦄ where
  -- Two states have the same statistics and the same row of a device.
  abbrev IsSame : Text → Ingest → Ingest → Type 0
  IsSame d i j =
      (lookup d j.stats ≡ lookup d i.stats) × (get_device j.world.db d ≡ get_device i.world.db d)

  find-other :
      (j d : Text) (ds : List Device)
      → (j === d) ≡ false
      → find (is_device d) (update (is_device j) (λ r. record r { online = false }) ds)
        ≡ find (is_device d) ds
  find-other j d [] other = refl
  find-other j d (r ∷ ds) other =
      ground
        (arith, ===_iff r.device_id j, ===_iff r.device_id d, ===_iff j d, find-other j d ds other)

  presence-IsSame :
      (j d : Text) (now : Time) (i : Ingest)
      → (j === d) ≡ false
      → IsSame d i (set_presence j false now i)
  unfolding st set_presence announce with_engine with_db set_st set_online get_device
  presence-IsSame j d now i other =
      let i' = with_db (set_online j false) (set_st j (record (st j i) { online = false }) i) in
      (
        lookup-insert j d (record (st j i) { online = false }) i.stats
            ∙ ap
                (λ (b : Bool).
                  if b then some (record (st j i) { online = false }) else lookup d i.stats)
                other,
        ap (λ (ds : List Device). find (is_device d) ds) (on_offline-devices j now i'.world)
            ∙ find-other j d i.world.db.devices other,
      )

  -- A step of either loop, which marks a device offline or not.
  abbrev stepped : Bool → Text → Time → Ingest → Ingest
  stepped b j now i = if b then set_presence j false now i else i

  step-IsSame :
      (b : Bool) (j d : Text) (now : Time) (i : Ingest)
      → (b && (j === d)) ≡ false
      → IsSame d i (stepped b j now i)
  step-IsSame true j d now i h = presence-IsSame j d now i h
  step-IsSame false j d now i h = (refl, refl)

  trans-IsSame : (d : Text) (i j k : Ingest) → IsSame d i j → IsSame d j k → IsSame d i k
  trans-IsSame d i j k (p, q) (u, v) = (u ∙ p, v ∙ q)

  -- An entry of the statistics is not an online one of the device.
  abbrev pub IsQuiet : Text → Text × DeviceStats → Type 0
  IsQuiet d (j, s) = ((j === d) && s.online) ≡ false

  scan_stats-IsSame :
      (ss : List (Text × DeviceStats)) (d : Text) (now : Time) (i : Ingest)
      → All (IsQuiet d) ss
      → IsSame d i (scan_stats ss now i)
  unfolding scan_stats
  scan_stats-IsSame [] d now i h = (refl, refl)
  scan_stats-IsSame ((j, s) ∷ ss) d now i (quiet, h) =
      let due = s.online && overdue s.last_seen now in
      let i' = stepped due j now i in
      trans-IsSame d i i' (scan_stats ss now i') (step-IsSame due j d now i (ground (arith, quiet)))
        (scan_stats-IsSame ss d now i' h)

  abbrev pub is_known_in : Option DeviceStats → Bool
  is_known_in none = false
  is_known_in (some s) = true

  abbrev row_due : Device → Option DeviceStats → Time → Bool
  row_due r o now =
      let unknown : Bool = elim o [ none ↦ true | some s ↦ false ] in
      r.online && (unknown && overdue r.last_seen now)

  known-not_due :
      (r : Device) (s : DeviceStats) (o : Option DeviceStats) (now : Time)
      → o ≡ some s
      → row_due r o now ≡ false
  known-not_due r s none now h = ground arith
  known-not_due r s (some x) now h = ground arith

  known-step :
      (r : Device) (d : Text) (s : DeviceStats) (now : Time) (i : Ingest)
      → lookup d i.stats ≡ some s
      → (row_due r (lookup r.device_id i.stats) now && (r.device_id === d)) ≡ false
  known-step r d s now i h = elim (Bool-cases (r.device_id === d)) [
    | inl e ↦
        let same = ap (λ (k : Text). lookup k i.stats) (===_sound r.device_id d e) in
        rw (known-not_due r s (lookup r.device_id i.stats) now (same ∙ h)) refl
    | inr e ↦ rw e (ground arith)
  ]

  scan_devices-IsSame :
      (ds : List Device) (d : Text) (s : DeviceStats) (now : Time) (i : Ingest)
      → lookup d i.stats ≡ some s
      → IsSame d i (scan_devices ds now i)
  unfolding scan_devices
  scan_devices-IsSame [] d s now i h = (refl, refl)
  scan_devices-IsSame (r ∷ ds) d s now i h =
      let due = row_due r (lookup r.device_id i.stats) now in
      let i' = stepped due r.device_id now i in
      let one = step-IsSame due r.device_id d now i (known-step r d s now i h) in
      trans-IsSame d i i' (scan_devices ds now i') one
        (scan_devices-IsSame ds d s now i' (one.0 ∙ h))

  abbrev IsOff : Text → Ingest → Type 0
  IsOff d i = is_online i.world.db d ≡ false

  scan_devices-IsOff :
      (ds : List Device) (d : Text) (now : Time) (i : Ingest)
      → IsOff d i
      → IsOff d (scan_devices ds now i)
  unfolding scan_devices
  scan_devices-IsOff [] d now i h = h
  scan_devices-IsOff (r ∷ ds) d now i h = scan_devices-IsOff ds d now _ (
      if_kept (IsOff d) (row_due r (lookup r.device_id i.stats) now) r.device_id now i
        (table-offline r.device_id d now i ∙ if-false (r.device_id === d) _ h) h)

  unknown-due :
      (r : Device) (o : Option DeviceStats) (now : Time)
      → o ≡ none
      → (r.online && overdue r.last_seen now) ≡ true
      → row_due r o now ≡ true
  unknown-due r none now h due = due
  unknown-due r (some s) now h due = ground arith

  scan_devices-due :
      (ds : List Device) (d : Text) (r : Device) (now : Time) (i : Ingest)
      → find (is_device d) ds ≡ some r
      → lookup d i.stats ≡ none
      → (r.online && overdue r.last_seen now) ≡ true
      → IsOff d (scan_devices ds now i)
  unfolding scan_devices
  scan_devices-due [] d r now i h new due = ground arith
  scan_devices-due (x ∷ ds) d r now i h new due =
      let acts = row_due x (lookup x.device_id i.stats) now in
      let i' = stepped acts x.device_id now i in
      elim (Bool-cases (x.device_id === d)) [
        | inl e ↦
            let same = found x r (find (is_device d) ds) (x.device_id === d) e h in
            let due_x = ap (λ (y : Device). y.online && overdue y.last_seen now) same ∙ due in
            let new_x = ap (λ (k : Text). lookup k i.stats) (===_sound x.device_id d e) ∙ new in
            let off =
              table-offline x.device_id d now i
              ∙ ap (λ (b : Bool). if b then false else is_online i.world.db d) e in
            scan_devices-IsOff ds d now i' (
              if_taken (IsOff d) acts x.device_id now i
                (unknown-due x (lookup x.device_id i.stats) now new_x due_x) off)
        | inr n ↦
            let kept = step-IsSame acts x.device_id d now i (ground (arith, n)) in
            scan_devices-due ds d r now i'
              (later x r (find (is_device d) ds) (x.device_id === d) n h) (kept.0 ∙ new) due
      ]

  abbrev row_flag : Option Device → Bool
  row_flag o = elim o [ none ↦ false | some r ↦ r.online ]

  row_after :
      (d : Text) (r : Device) (now : Time) (i : Ingest) (o : Option DeviceStats)
      → lookup d i.stats ≡ o
      → get_device i.world.db d ≡ some r
      → r.online ≡ true
      → overdue r.last_seen now ≡ true
      → All (IsQuiet d) i.stats
      → is_online (offline_scan now i).world.db d ≡ is_known_in o
  unfolding offline_scan is_online get_device
  row_after d r now i none new h on late quiet =
      let i' = scan_stats i.stats now i in
      let (p, q) = scan_stats-IsSame i.stats d now i quiet in
      scan_devices-due i'.world.db.devices d r now i' (q ∙ h) (p ∙ new) (rw (on, late) refl)
  row_after d r now i (some s) known h on late quiet =
      let i' = scan_stats i.stats now i in
      let (p, q) = scan_stats-IsSame i.stats d now i quiet in
      let (u, v) = scan_devices-IsSame i'.world.db.devices d s now i' (p ∙ known) in
      ap row_flag (v ∙ q ∙ h) ∙ on

  -- Take a device whose row of the devices table is online and was heard of more than 15 seconds ago,
  -- and of which no entry of the statistics is online. After a pass of the loop its row is offline if
  -- the statistics have no entry for it, and is still online if they have one.
  pub offline_scan-row :
      (d : Text) (r : Device) (t now : Time) (i : Ingest)
      → get_device i.world.db d ≡ some r
      → r.online ≡ true
      → r.last_seen ≡ some t
      → 0 < t
      → t + offline_after < now
      → All (IsQuiet d) i.stats
      → is_online (offline_scan now i).world.db d ≡ is_known_in (lookup d i.stats)
  offline_scan-row d r t now i h on seen pos late quiet =
      row_after d r now i (lookup d i.stats) refl h on (rw seen (ground arith)) quiet
