-- ===== src/Ingest/Totals.antt =====
-- Statistics that outlive the server, and those of the whole fleet, in backend/app/ingest.py.
use ecu_telemetry.Prelude.{
  ℕ, ◌+◌, Bool, true, false, none, some, List, [], ◌∷◌, ltb, ◌==◌, if◌then◌else◌, length,
}
use ecu_telemetry.Prelude.Tables.{lookup}
use ecu_telemetry.Python.Floats.{Floats}
use ecu_telemetry.Python.Text.{Text}
use ecu_telemetry.Bus.{Time}
use ecu_telemetry.Db.Types.{StatsRow, Database}
use ecu_telemetry.Db.Devices.{save_stats}
use ecu_telemetry.Ingest.Stats.{DeviceStats, loss_pct}
use ecu_telemetry.Ingest.State.{Ingest, st, set_st, with_db}

module _ ⦃fl : Floats⦄ where
  open fl use {Float}

  -- as_dict, as save_stats reads it.
  abbrev stats_row : Text → DeviceStats → Time → StatsRow
  stats_row device_id s now = record {
    device_id = device_id;
    frames_rx = s.frames_rx;
    bad_crc = s.bad_crc;
    seq_gaps = s.seq_gaps;
    loss_pct = loss_pct s;
    reconnects = s.reconnects;
    tcp_connected = s.tcp_connected;
    last_seen = s.last_seen;
    last_seq = s.last_seq;
    updated_at = now;
  }

  save_each : List (Text × DeviceStats) → Time → Database → Database
  save_each [] now db = db
  save_each ((d, s) ∷ rest) now db = save_each rest now (save_stats (stats_row d s now) db)

  -- _persist_stats
  unfoldable persist_stats : Time → Ingest → Ingest
  unfolding save_each with_db
  persist_stats now i = with_db (save_each i.stats now) i

  -- The rows that the server starts from: the counters and last_seen, and nothing else.
  unfoldable restore : List StatsRow → Ingest → Ingest
  unfolding set_st st
  restore [] i = i
  restore (row ∷ rows) i =
      let s = st row.device_id i in
      restore rows (
        set_st row.device_id
          (record s {
            frames_rx = row.frames_rx;
            bad_crc = row.bad_crc;
            seq_gaps = row.seq_gaps;
            reconnects = row.reconnects;
            last_seen = row.last_seen;
          })
          i)

  unfoldable is_connected : Text → Ingest → Bool
  is_connected device_id i = elim (lookup device_id i.writers) [ none ↦ false | some c ↦ true ]

  pub record FleetStats : Type 0 where
    pub devices : ℕ
    pub devices_online : ℕ
    pub frames : ℕ
    pub frames_total_rx : ℕ
    pub bad_crc : ℕ
    pub loss_pct : Float
    pub tcp_connected : ℕ

  abbrev sum_of : (DeviceStats → ℕ) → List (Text × DeviceStats) → ℕ
  sum_of f [] = 0
  sum_of f ((d, s) ∷ rest) = f s + sum_of f rest

  abbrev count_if : Bool → ℕ
  count_if true = 1
  count_if false = 0

  -- The losses of the devices that have sent a frame.
  losses : List (Text × DeviceStats) → List Float
  losses [] = []
  losses ((d, s) ∷ rest) =
      let more = losses rest in if ltb 0 s.frames_rx then loss_pct s ∷ more else more

  abbrev sum_f : Float → List Float → Float
  sum_f acc [] = acc
  sum_f acc (x ∷ xs) = sum_f (fl.add acc x) xs

  unfoldable pub fleet_stats : Ingest → FleetStats
  unfolding losses
  fleet_stats i =
      let all = losses i.stats in
      record {
        devices = length i.world.db.devices;
        devices_online = sum_of (λ s. count_if s.online) i.stats;
        frames = sum_of (λ s. s.frames_rx) i.stats;
        frames_total_rx = i.total_frames;
        bad_crc = sum_of (λ s. s.bad_crc) i.stats + i.global_bad_frames;
        loss_pct =
            if length all == 0
            then fl.of_ℕ 0
            else fl.round (fl.div (sum_f (fl.of_ℕ 0) all) (fl.of_ℕ (length all))) 2;
        tcp_connected = sum_of (λ s. count_if s.tcp_connected) i.stats;
      }
