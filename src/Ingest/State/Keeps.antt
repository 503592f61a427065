-- ===== src/Ingest/State/Keeps.antt =====
-- What datagrams leave of the alerts, and what rejected datagrams leave.
use mathlib.Core.Path.{subst}
use ecu_telemetry.Prelude.{
  ℕ, ◌+◌, ◌≡◌, refl, ◌∙◌, ap, inl, inr, Bool, true, false, some, if◌then◌else◌, ◌==◌, Bool-cases,
}
use ecu_telemetry.Prelude.Tables.{lookup-insert}
use ecu_telemetry.Python.Result.{Result, ok, err, Error, is_protocol_error}
use ecu_telemetry.Python.Floats.{Floats}
use ecu_telemetry.Python.Struct.{Bytes}
use ecu_telemetry.Python.Text.{Text, ===_refl}
use ecu_telemetry.Bus.{Time}
use ecu_telemetry.Protocol.MsgType
use ecu_telemetry.Protocol.Header.{Header, unpack_header}
use ecu_telemetry.Protocol.Payload.Types.{Payload, Telemetry}
use ecu_telemetry.Protocol.Frame.{Frame, decode}
use ecu_telemetry.Protocol.Frame.Reject.{IsCaught, unpack_header-IsCaught, decode-IsCaught}
use ecu_telemetry.Db.Types.{Device, Database}
use ecu_telemetry.Db.Devices.{upsert_device, set_online}
use ecu_telemetry.Db.Samples.{buffer_telemetry}
use ecu_telemetry.Db.Alerts.{open_count}
use ecu_telemetry.Db.Alerts.Unique.{IsUnique}
use ecu_telemetry.World.Types.{Reading, World}
use ecu_telemetry.Engine.Alerts.{on_offline, on_online}
use ecu_telemetry.Engine.Alerts.Lifecycle.{on_offline-IsUnique, on_online-IsUnique}
use ecu_telemetry.Engine.Evaluate.Fired.{on_telemetry-IsUnique}
use ecu_telemetry.Ingest.Stats.{DeviceStats, loss_pct}
use ecu_telemetry.Ingest.State.{
  Ingest, st, set_st, with_db, with_engine, announce, set_presence, seen, judge_sample, counted,
  reading_of, store_sample, handle_telemetry, take_frame, take_decoded, take_header, caught,
  count_bad, on_datagram,
}

module _ ⦃fl : Floats⦄ where
  open fl use {Float}

  -- One open alert at most for each device and rule, and no two alerts with one id.
  abbrev pub Sound : Ingest → Type 0
  Sound i = IsUnique i.world.db

  presence-IsUnique :
      (online : Bool) (d : Text) (now : Time) (w : World)
      → IsUnique w.db
      → IsUnique ((if online then on_online d now else on_offline d now) w).db
  presence-IsUnique true d now w u = on_online-IsUnique d now w u
  presence-IsUnique false d now w u = on_offline-IsUnique d now w u

  -- A change of presence keeps one open alert at most for each device and rule.
  pub set_presence-Sound :
      (d : Text) (online : Bool) (now : Time) (i : Ingest)
      → Sound i
      → Sound (set_presence d online now i)
  unfolding set_presence with_db with_engine announce set_st set_online open_count
  set_presence-Sound d online now i u = presence-IsUnique online d now _ u

  seen_if-Sound :
      (b : Bool) (d : Text) (now : Time) (i : Ingest)
      → Sound i
      → Sound (if b then i else set_presence d true now i)
  seen_if-Sound true d now i u = u
  seen_if-Sound false d now i u = set_presence-Sound d true now i u

  pub seen-Sound : (d : Text) (now : Time) (i : Ingest) → Sound i → Sound (seen d now i)
  unfolding seen set_st
  seen-Sound d now i u = seen_if-Sound ((st d i).online) d now _ u

  judge_sample-Sound :
      (d : Text) (r : Reading) (loss : Float) (now : Time) (i : Ingest)
      → Sound i
      → Sound (judge_sample d r loss now i)
  unfolding judge_sample
  judge_sample-Sound d r loss now i u = on_telemetry-IsUnique d r now (some loss) i.world u

  -- A change of the database that leaves its alerts and their counter.
  pub stored-Sound :
      (f : Database → Database) (i : Ingest)
      → (f i.world.db).alerts ≡ i.world.db.alerts
      → (f i.world.db).next_alert ≡ i.world.db.next_alert
      → Sound i
      → Sound (with_db f i)
  unfolding with_db open_count
  stored-Sound f i e n u = rw (e, n) u

  pub upsert-Sound :
      (d : Text) (f : Device → Device) (now : Time) (i : Ingest)
      → Sound i
      → Sound (with_db (upsert_device d f now) i)
  unfolding upsert_device
  upsert-Sound d f now i u = stored-Sound _ i refl refl u

  store_sample-Sound :
      (h : Header) (t : Telemetry) (s : DeviceStats) (d : Reading) (now : Time) (i : Ingest)
      → Sound i
      → Sound (store_sample h t s d now i)
  unfolding store_sample with_db set_st upsert_device buffer_telemetry
  store_sample-Sound h t s d now i u = u

  -- A telemetry frame keeps one open alert at most for each device and rule.
  pub handle_telemetry-Sound :
      (h : Header) (t : Telemetry) (now : Time) (i : Ingest)
      → Sound i
      → Sound (handle_telemetry h t now i)
  unfolding handle_telemetry
  handle_telemetry-Sound h t now i u =
      let s = counted h now (st h.device_id i) in
      let d = reading_of t h (loss_pct s) now in
      judge_sample-Sound h.device_id d (loss_pct s) now
        (seen h.device_id now (store_sample h t s d now i))
        (seen-Sound h.device_id now (store_sample h t s d now i)
          (store_sample-Sound h t s d now i u))

  take_if-Sound :
      (b : Bool) (h : Header) (t : Telemetry) (now : Time) (i : Ingest)
      → Sound i
      → Sound (if b then handle_telemetry h t now i else i)
  take_if-Sound true h t now i u = handle_telemetry-Sound h t now i u
  take_if-Sound false h t now i u = u

  take_frame-Sound :
      (ty : ℕ) (h : Header) (p : Payload) (now : Time) (i : Ingest)
      → Sound i
      → Sound (take_frame ty h p now i)
  unfolding take_frame
  take_frame-Sound ty h (Payload.telemetry t) now i u =
      take_if-Sound (ty == MsgType.telemetry) h t now i u
  take_frame-Sound ty h _ now i u = u

  caught-Sound : (e : Error) (x i : Ingest) → Sound x → Sound i → Sound (caught e x i)
  unfolding caught
  caught-Sound e x i ux ui = elim (Bool-cases (is_protocol_error e)) [
    | inl h ↦ rw h ux
    | inr h ↦ rw h ui
  ]

  take_decoded-Sound :
      (r : Result Frame) (d : Text) (now : Time) (i : Ingest)
      → Sound i
      → Sound (take_decoded r d now i)
  unfolding take_decoded count_bad set_st
  take_decoded-Sound (err e) d now i u = caught-Sound e _ i u u
  take_decoded-Sound (ok f) d now i u =
      take_frame-Sound f.header.msg_type f.header f.payload now i u

  take_header-Sound :
      (r : Result Header) (bytes : Bytes) (now : Time) (i : Ingest)
      → Sound i
      → Sound (take_header r bytes now i)
  unfolding take_header set_st
  take_header-Sound (err e) bytes now i u = caught-Sound e _ i u u
  take_header-Sound (ok h) bytes now i u = take_decoded-Sound (decode bytes) h.device_id now _ u

  -- Any datagram keeps one open alert at most for each device and rule.
  pub on_datagram-Sound :
      (bytes : Bytes) (now : Time) (i : Ingest) → Sound i → Sound (on_datagram bytes now i)
  unfolding on_datagram
  on_datagram-Sound bytes now i u = take_header-Sound (unpack_header bytes) bytes now _ u

  st-set_st : (d : Text) (s : DeviceStats) (i : Ingest) → st d (set_st d s i) ≡ s
  unfolding st set_st
  st-set_st d s i = rw (lookup-insert d d s i.stats, ===_refl d) refl

  -- How a rejected datagram is counted: against no device, or against the one its header names.
  abbrev pub Counted : Result Header → Ingest → Ingest → Type 0
  Counted (err e) i i' = (i'.global_bad_frames ≡ i.global_bad_frames + 1) × (i'.stats ≡ i.stats)
  Counted (ok h) i i' =
      (i'.global_bad_frames ≡ i.global_bad_frames)
      × ((st h.device_id i').bad_crc ≡ (st h.device_id i).bad_crc + 1)

  caught-handled : (e : Error) (x i : Ingest) → is_protocol_error e ≡ true → caught e x i ≡ x
  unfolding caught
  caught-handled e x i h = rw h refl

  IsCaught-err {ℓ} :
      {A : Type ℓ} (r : Result A) (e : Error) → r ≡ err e → IsCaught r → is_protocol_error e ≡ true
  IsCaught-err r e p c = subst IsCaught p c

  take_decoded-err :
      (e : Error) (d : Text) (now : Time) (i : Ingest)
      → is_protocol_error e ≡ true
      → take_decoded (err e) d now i ≡ count_bad d i
  unfolding take_decoded
  take_decoded-err e d now i h = caught-handled e (count_bad d i) i h

  count_bad-counts :
      (d : Text) (i : Ingest)
      → ((count_bad d (set_st d (st d i) i)).world ≡ i.world)
        × ((st d (count_bad d (set_st d (st d i) i))).bad_crc ≡ (st d i).bad_crc + 1)
  unfolding count_bad
  count_bad-counts d i =
      let j = set_st d (st d i) i in
      (
        unfold set_st in refl,
        ap (λ (s : DeviceStats). s.bad_crc) (st-set_st d _ j)
            ∙ ap (λ (s : DeviceStats). s.bad_crc + 1) (st-set_st d _ i),
      )

  take_header-rejects :
      (r : Result Header) (bytes : Bytes) (now : Time) (i : Ingest) (e : Error)
      → IsCaught r
      → decode bytes ≡ err e
      → is_protocol_error e ≡ true
      → ((take_header r bytes now i).world ≡ i.world) × Counted r i (take_header r bytes now i)
  unfolding take_header
  take_header-rejects (err e') bytes now i e c p h =
      rw (caught-handled e' (record i { global_bad_frames = i.global_bad_frames + 1 }) i c)
        (refl, (refl, refl))
  take_header-rejects (ok hd) bytes now i e c p h =
      rw (p, take_decoded-err e hd.device_id now (set_st hd.device_id (st hd.device_id i) i) h)
        (let (a, b) = count_bad-counts hd.device_id i in
          (a, ((unfold count_bad set_st in refl), b)))

  -- A datagram that does not decode changes nothing of the database, the rule engine and the bus. It is
  -- counted once: as a bad frame of no device if its header is bad, else as a bad frame of the
  -- device that the header names.
  pub on_datagram-rejects :
      (bytes : Bytes) (now : Time) (i : Ingest) (e : Error)
      → decode bytes ≡ err e
      → ((on_datagram bytes now i).world ≡ i.world)
        × Counted
            (unpack_header bytes)
            (record i { total_frames = i.total_frames + 1 })
            (on_datagram bytes now i)
  unfolding on_datagram
  on_datagram-rejects bytes now i e p =
      take_header-rejects (unpack_header bytes) bytes now _ e (unpack_header-IsCaught bytes) p
        (IsCaught-err (decode bytes) e p (decode-IsCaught bytes))
