-- ===== src/Ingest/Dispatch/Followup.antt =====
-- What follows a HELLO in backend/app/ingest.py: the config that the device lacks, and the job that
-- its version completes.
use mathlib.Core.Path.{subst}
use ecu_telemetry.Prelude.{
  ℕ, ◌+◌, ◌/◌, ◌<◌, ◌≡◌, refl, sym, ap, ◌∙◌, inl, inr, Bool, true, false, not, Bool-cases, Option,
  none, some, List, [], ◌∷◌, ◌++◌, append_assoc, ltb, ◌==◌, ==_refl, arith, if◌then◌else◌,
}
use ecu_telemetry.Prelude.Tables.{lookup, find, update}
use ecu_telemetry.Python.Result.{Result, ok, err}
use ecu_telemetry.Python.Floats.{Floats}
use ecu_telemetry.Python.Struct.{Bytes}
use ecu_telemetry.Python.Text.{Text, text, ◌===◌, ===_refl}
use ecu_telemetry.Bus.{Time}
use ecu_telemetry.Protocol.Payload.Types.{Payload, Hello}
use ecu_telemetry.Protocol.Payload.Codec.{payload_type}
use ecu_telemetry.Protocol.Frame.{encode}
use ecu_telemetry.Db.Types.{DeviceConfig, FwJob, Firmware}
use ecu_telemetry.Db.Config.{current_config, config_version, mark_config}
use ecu_telemetry.Db.Devices.{get_device}
use ecu_telemetry.Db.Firmware.{add_status, firmware_get, fw_job_latest, fw_job_update, in_progress}
use ecu_telemetry.Engine.Thresholds.{invalidate_config}
use ecu_telemetry.Ingest.State.{Ingest, Net, st, set_st, with_db, with_engine, announce}
use ecu_telemetry.Ingest.Push.{
  Did, then_do, done, fw_of, write_frame, send_on, send, config_payload, push_config,
}
use ecu_telemetry.Ingest.Dispatch.{
  hello_config, hello_fw, hello_job, job_complete, is_resendable, after_hello,
}

module _ ⦃fl : Floats⦄ where
  -- What was written before is still written, below what came after.
  abbrev Grows : Ingest → Ingest → Type 0
  Grows i j = (new : List (ℕ × Bytes)) × (j.sent ≡ new ++ i.sent)

  same : (i j : Ingest) → j.sent ≡ i.sent → Grows i j
  same i j e = ([], e)

  trans : (i j k : Ingest) → Grows i j → Grows j k → Grows i k
  trans i j k (a, p) (b, q) =
      (b ++ a, q ∙ ap (λ (s : List (ℕ × Bytes)). b ++ s) p ∙ sym (append_assoc b a i.sent))

  did_if-Grows :
      {A : Type 0} (b : Bool) (i : Ingest) (x y : Did A)
      → Grows i x.0
      → Grows i y.0
      → Grows i (if b then x else y).0
  did_if-Grows true i x y p q = p
  did_if-Grows false i x y p q = q

  then_do-Grows :
      {A B : Type 0} (i : Ingest) (x : Did A) (f : A → Ingest → Did B)
      → Grows i x.0
      → ((a : A) (j : Ingest) → Grows j (f a j).0)
      → Grows i (then_do x f).0
  then_do-Grows i (j, err e) f p h = p
  then_do-Grows i (j, ok a) f p h = trans i j (f a j).0 p (h a j)

  write_frame-Grows :
      (net : Net) (c : ℕ) (r : Result Bytes) (i : Ingest) → Grows i (write_frame net c r i).0
  unfolding write_frame
  write_frame-Grows net c (err e) i = same i i refl
  write_frame-Grows net c (ok f) i =
      did_if-Grows (net.accepts c f) i _ _ ((c, f) ∷ [], refl) (same i i refl)

  send_on-Grows :
      (net : Net) (o : Option ℕ) (d : Text) (p : Payload) (now : Time) (i : Ingest)
      → Grows i (send_on net o d p now i).0
  unfolding send_on set_st
  send_on-Grows net none d p now i = same i i refl
  send_on-Grows net (some c) d p now i =
      did_if-Grows (net.is_closing c) i _ _ (same i i refl) (write_frame-Grows net c _ _)

  hello_fw-Grows :
      (net : Net) (o : Option Firmware) (d : Text) (now : Time) (i : Ingest)
      → Grows i (hello_fw net o d now i).0
  unfolding hello_fw send
  hello_fw-Grows net none d now i = same i i refl
  hello_fw-Grows net (some fw) d now i =
      then_do-Grows i _ _ (send_on-Grows net (lookup d i.writers) d _ now i) (λ s j. same j j refl)

  hello_job-Grows :
      (net : Net) (o : Option FwJob) (d : Text) (p : Hello) (now : Time) (i : Ingest)
      → Grows i (hello_job net o d p now i).0
  unfolding hello_job job_complete announce with_db
  hello_job-Grows net none d p now i = same i i refl
  hello_job-Grows net (some j) d p now i =
      did_if-Grows (not (in_progress j)) i _ _ (same i i refl) (
        did_if-Grows (p.fw_string === j.target_version) i _ _ (same i i refl) (
          did_if-Grows (is_resendable j) i _ _
            (hello_fw-Grows net (firmware_get i.world.db j.target_version) d now i)
            (same i i refl)))

  -- The bytes that send writes for a payload.
  abbrev pub frame_for : Text → Payload → Time → Ingest → Result Bytes
  frame_for d payload now i =
      encode (payload_type 0 payload) d ((st d i).tx_seq + 1) (now / 1000)
        (fw_of (get_device i.world.db d)) payload

  -- A connection that is open and takes the frame.
  pub record IsTaken (net : Net) (d : Text) (payload : Payload) (now : Time) (i : Ingest)
      : Type 0 where
    pub conn : ℕ
    pub frame : Bytes
    pub named : lookup d i.writers ≡ some conn
    pub is_open : net.is_closing conn ≡ false
    pub encoded : frame_for d payload now i ≡ ok frame
    pub accepted : net.accepts conn frame ≡ true

  send-IsTaken :
      (net : Net) (d : Text) (payload : Payload) (now : Time) (i : Ingest)
      (t : IsTaken net d payload now i)
      → send net d payload now i ≡ (
        record (set_st d (record (st d i) { tx_seq = (st d i).tx_seq + 1 }) i) {
          sent = (t.conn, t.frame) ∷ i.sent;
        },
        ok true,
      )
  unfolding send send_on write_frame st set_st
  send-IsTaken net d payload now i t = rw (t.named, t.is_open, t.encoded, t.accepted) refl

  config_sent :
      (net : Net) (d : Text) (cfg : DeviceConfig) (now : Time) (i : Ingest)
      (t : IsTaken net d (config_payload cfg) now i)
      → ((push_config net d cfg now i).0.sent ≡ (t.conn, t.frame) ∷ i.sent)
        × ((push_config net d cfg now i).1 ≡ ok true)
  unfolding push_config with_db with_engine mark_config invalidate_config set_st
  config_sent net d cfg now i t = rw (send-IsTaken net d (config_payload cfg) now i t) (refl, refl)

  then_done :
      (x : Did Bool) (s : List (ℕ × Bytes))
      → (x.0.sent ≡ s) × (x.1 ≡ ok true)
      → ((then_do x (λ b j. done j)).0.sent ≡ s) × ((then_do x (λ b j. done j)).1 ≡ ok tt)
  then_done (i, err e) s (p, q) = ground arith
  then_done (i, ok b) s (p, q) = (p, refl)

  hello_config-sends :
      (net : Net) (d : Text) (p : Hello) (cfg : DeviceConfig) (now : Time) (i : Ingest)
      (t : IsTaken net d (config_payload cfg) now i)
      → p.config_version < cfg.version
      → ((hello_config net (some cfg) d p now i).0.sent ≡ (t.conn, t.frame) ∷ i.sent)
        × ((hello_config net (some cfg) d p now i).1 ≡ ok tt)
  unfolding hello_config
  hello_config-sends net d p cfg now i t newer =
      let old : ltb p.config_version cfg.version ≡ true = ground arith in
      rw old (then_done (push_config net d cfg now i) _ (config_sent net d cfg now i t))

  then_ok :
      {A B : Type 0} (x : Did A) (a : A) (f : A → Ingest → Did B) (s : List (ℕ × Bytes))
      → (x.0.sent ≡ s) × (x.1 ≡ ok a)
      → ((b : A) (j : Ingest) → Grows j (f b j).0)
      → (new : List (ℕ × Bytes)) × ((then_do x f).0.sent ≡ new ++ s)
  then_ok (i, err e) a f s (p, q) h = ground arith
  then_ok (i, ok b) a f s (p, q) h =
      let (new, g) = h b i in (new, g ∙ ap (λ (t : List (ℕ × Bytes)). new ++ t) p)

  -- Where the device's configuration is newer than the one its HELLO reports, and the connection takes
  -- the frame, the server writes the CONFIG_SET frame of that configuration to the device's connection.
  pub after_hello-config :
      (net : Net) (d : Text) (p : Hello) (cfg : DeviceConfig) (now : Time) (i : Ingest)
      (t : IsTaken net d (config_payload cfg) now i)
      → current_config i.world.db d ≡ some cfg
      → p.config_version < cfg.version
      → (new : List (ℕ × Bytes)) × ((after_hello net d p now i).0.sent
          ≡ new ++ ((t.conn, t.frame) ∷ i.sent))
  unfolding after_hello
  after_hello-config net d p cfg now i t current newer =
      then_ok (hello_config net (current_config i.world.db d) d p now i) tt _
        ((t.conn, t.frame) ∷ i.sent) (rw current (hello_config-sends net d p cfg now i t newer))
        (λ x j. hello_job-Grows net (fw_job_latest j.world.db d) d p now j)

  first_row :
      (j job : FwJob) (o : Option FwJob) (c : Bool)
      → c ≡ true
      → (if c then some j else o) ≡ some job
      → j ≡ job
  first_row j job o true e h = ground arith
  first_row j job o false e h = ground arith

  later_row :
      (j job : FwJob) (o : Option FwJob) (c : Bool)
      → c ≡ false
      → (if c then some j else o) ≡ some job
      → o ≡ some job
  later_row j job o true e h = ground arith
  later_row j job o false e h = h

  job_updated :
      (d : Text) (now : Time) (js : List FwJob) (job : FwJob)
      → find (λ j. j.device_id === d) js ≡ some job
      → find
          (λ j. j.device_id === d)
          (update (λ j. j.id == job.id) (add_status (text "complete") now) js)
        ≡ some (add_status (text "complete") now job)
  job_updated d now [] job h = ground arith
  job_updated d now (j ∷ js) job h = elim (Bool-cases (j.device_id === d)) [
    | inl e ↦
        subst
          (λ (z : FwJob).
            find (λ x. x.device_id === d)
              (update (λ x. x.id == z.id) (add_status (text "complete") now) (j ∷ js))
            ≡ some (add_status (text "complete") now z))
          (first_row j job _ (j.device_id === d) e h) (rw (==_refl j.id, e) refl)
    | inr e ↦
        let rest = job_updated d now js job (later_row j job _ (j.device_id === d) e h) in
        elim (Bool-cases (j.id == job.id)) [ inl c ↦ rw (c, e) rest | inr c ↦ rw (c, e) rest ]
  ]

  hello_job-completes :
      (net : Net) (d : Text) (p : Hello) (job : FwJob) (now : Time) (i : Ingest)
      → fw_job_latest i.world.db d ≡ some job
      → in_progress job ≡ true
      → p.fw_string ≡ job.target_version
      → fw_job_latest (hello_job net (some job) d p now i).0.world.db d
        ≡ some (add_status (text "complete") now job)
  unfolding hello_job job_complete with_db announce fw_job_update fw_job_latest
  hello_job-completes net d p job now i h run e =
      let same_version : (p.fw_string === job.target_version) ≡ true =
        rw e (===_refl job.target_version) in
      rw (run, same_version) (job_updated d now i.world.db.fw_jobs job h)

  hello_config-none :
      (net : Net) (o : Option DeviceConfig) (d : Text) (p : Hello) (now : Time) (i : Ingest)
      → ltb p.config_version (config_version o) ≡ false
      → hello_config net o d p now i ≡ done i
  unfolding hello_config
  hello_config-none net none d p now i e = refl
  hello_config-none net (some c) d p now i e = rw e refl

  -- Where the latest firmware job of the device is in progress, the HELLO names the job's version, and
  -- the device has the current configuration, the job is complete afterwards.
  pub after_hello-completes :
      (net : Net) (d : Text) (p : Hello) (job : FwJob) (now : Time) (i : Ingest)
      → fw_job_latest i.world.db d ≡ some job
      → in_progress job ≡ true
      → p.fw_string ≡ job.target_version
      → ltb p.config_version (config_version (current_config i.world.db d)) ≡ false
      → fw_job_latest (after_hello net d p now i).0.world.db d
        ≡ some (add_status (text "complete") now job)
  unfolding after_hello
  after_hello-completes net d p job now i h run e c =
      rw (hello_config-none net (current_config i.world.db d) d p now i c, h)
        (hello_job-completes net d p job now i h run e)
