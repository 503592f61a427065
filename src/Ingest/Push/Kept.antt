-- ===== src/Ingest/Push/Kept.antt =====
-- What the pushes of backend/app/ingest.py leave of the alerts.
use ecu_telemetry.Prelude.{ℕ, Bool, true, false, Option, none, some, if◌then◌else◌}
use ecu_telemetry.Prelude.Tables.{lookup}
use ecu_telemetry.Python.Result.{Result, ok, err}
use ecu_telemetry.Python.Floats.{Floats}
use ecu_telemetry.Python.Struct.{Bytes}
use ecu_telemetry.Python.Text.{Text}
use ecu_telemetry.Bus.{Time}
use ecu_telemetry.Protocol.Payload.Types.{Payload}
use ecu_telemetry.Db.Types.{DeviceConfig, Firmware}
use ecu_telemetry.Db.Config.{mark_config}
use ecu_telemetry.Engine.Thresholds.{invalidate_config}
use ecu_telemetry.Ingest.State.{Ingest, Net, set_st, with_db, with_engine}
use ecu_telemetry.Ingest.State.Keeps.{Sound}
use ecu_telemetry.Ingest.Push.{
  push_fw, push_fault, push_cmd, Did, then_do, write_frame, send_on, send, push_config,
}

module _ ⦃fl : Floats⦄ where
  pub if-Sound : (b : Bool) (x y : Ingest) → Sound x → Sound y → Sound (if b then x else y)
  if-Sound true x y p q = p
  if-Sound false x y p q = q

  pub did_if-Sound :
      {A : Type 0} (b : Bool) (x y : Did A) → Sound x.0 → Sound y.0 → Sound (if b then x else y).0
  did_if-Sound true x y p q = p
  did_if-Sound false x y p q = q

  pub then_do-Sound :
      {A B : Type 0} (x : Did A) (f : A → Ingest → Did B)
      → Sound x.0
      → ((a : A) (i : Ingest) → Sound i → Sound (f a i).0)
      → Sound (then_do x f).0
  then_do-Sound (i, err e) f p h = p
  then_do-Sound (i, ok a) f p h = h a i p

  write_frame-Sound :
      (net : Net) (c : ℕ) (r : Result Bytes) (i : Ingest)
      → Sound i
      → Sound (write_frame net c r i).0
  unfolding write_frame
  write_frame-Sound net c (err e) i u = u
  write_frame-Sound net c (ok f) i u = did_if-Sound (net.accepts c f) _ _ u u

  send_on-Sound :
      (net : Net) (o : Option ℕ) (d : Text) (p : Payload) (now : Time) (i : Ingest)
      → Sound i
      → Sound (send_on net o d p now i).0
  unfolding send_on set_st
  send_on-Sound net none d p now i u = u
  send_on-Sound net (some c) d p now i u =
      did_if-Sound (net.is_closing c) _ _ u (write_frame-Sound net c _ _ u)

  pub send-Sound :
      (net : Net) (d : Text) (p : Payload) (now : Time) (i : Ingest)
      → Sound i
      → Sound (send net d p now i).0
  unfolding send
  send-Sound net d p now i u = send_on-Sound net (lookup d i.writers) d p now i u

  -- Pushing a config keeps one open alert at most for each device and rule.
  pub push_config-Sound :
      (net : Net) (d : Text) (c : DeviceConfig) (now : Time) (i : Ingest)
      → Sound i
      → Sound (push_config net d c now i).0
  unfolding push_config with_db with_engine mark_config invalidate_config
  push_config-Sound net d c now i u =
      then_do-Sound _ _ (send-Sound net d _ now i u) (λ sent i' h. h)

  pub push_fw-Sound :
      (net : Net) (d : Text) (fw : Firmware) (now : Time) (i : Ingest)
      → Sound i
      → Sound (push_fw net d fw now i).0
  unfolding push_fw
  push_fw-Sound net d fw now i u = send-Sound net d _ now i u

  pub push_fault-Sound :
      (net : Net) (d : Text) (set clear duration : ℕ) (now : Time) (i : Ingest)
      → Sound i
      → Sound (push_fault net d set clear duration now i).0
  unfolding push_fault
  push_fault-Sound net d set clear duration now i u = send-Sound net d _ now i u

  pub push_cmd-Sound :
      (net : Net) (d : Text) (cmd : ℕ) (now : Time) (i : Ingest)
      → Sound i
      → Sound (push_cmd net d cmd now i).0
  unfolding push_cmd
  push_cmd-Sound net d cmd now i u = send-Sound net d _ now i u
