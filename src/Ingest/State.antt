-- ===== src/Ingest/State.antt =====
-- class Ingest of backend/app/ingest.py: its state, presence, datagrams, and frames to a device.
pub mod Keeps
use ecu_telemetry.Prelude.{
  ℕ, ◌+◌, ◌*◌, ◌/◌, Bool, true, false, not, ◌&&◌, ◌||◌, Option, none, some, List, [], ◌∷◌, ◌++◌,
  ltb, leb, ◌==◌, if◌then◌else◌,
}
use ecu_telemetry.Prelude.Tables.{Dict, lookup, insert, remove}
use ecu_telemetry.Python.Result.{Result, ok, err, Error, is_protocol_error}
use ecu_telemetry.Python.Floats.{Floats}
use ecu_telemetry.Python.Struct.{Bytes}
use ecu_telemetry.Python.Text.{Text, text}
use ecu_telemetry.Bus.{Time, second, publish, publish_telemetry}
use ecu_telemetry.Protocol.MsgType
use ecu_telemetry.Protocol.Firmware.{fw_decode}
use ecu_telemetry.Protocol.Header.{Header, unpack_header}
use ecu_telemetry.Protocol.Payload.Types.{Payload, Telemetry}
use ecu_telemetry.Protocol.Payload.Codec.{payload_type}
use ecu_telemetry.Protocol.Frame.{Frame, decode, encode}
use ecu_telemetry.Db.Types.{Device, Sample, Database}
use ecu_telemetry.Db.Devices.{upsert_device, set_online, get_device}
use ecu_telemetry.Db.Samples.{buffer_telemetry}
use ecu_telemetry.World.Types.{Reading, Event, World}
use ecu_telemetry.Engine.Alerts.{on_offline, on_online}
use ecu_telemetry.Engine.Evaluate.{on_telemetry}
use ecu_telemetry.Ingest.Stats.{DeviceStats, new_stats, loss_pct, note_seq}

-- OFFLINE_AFTER_S
abbrev pub offline_after : Time
offline_after = 15 * second

-- What asyncio's writers answer: whether a connection is closing, and whether write and drain
-- raise nothing for a frame.
pub record Net : Type 0 where
  pub is_closing : ℕ → Bool
  pub accepts : ℕ → Bytes → Bool

module _ ⦃fl : Floats⦄ where
  open fl use {Float}

  -- A connection is a number; `sent` is what was written, the newest first.
  pub record Ingest : Type 0 where
    pub stats : Dict DeviceStats
    pub writers : Dict ℕ
    pub latest : Dict Reading
    pub global_bad_frames : ℕ
    pub total_frames : ℕ
    pub sent : List (ℕ × Bytes)
    pub world : World

  abbrev or_new : Option DeviceStats → DeviceStats
  or_new none = new_stats
  or_new (some s) = s

  unfoldable pub st : Text → Ingest → DeviceStats
  st device_id i = or_new (lookup device_id i.stats)

  unfoldable pub set_st : Text → DeviceStats → Ingest → Ingest
  set_st device_id s i = record i { stats = insert device_id s i.stats }

  unfoldable pub with_db : (Database → Database) → Ingest → Ingest
  with_db f i = record i { world = record i.world { db = f i.world.db } }

  unfoldable pub with_engine : (World → World) → Ingest → Ingest
  with_engine f i = record i { world = f i.world }

  unfoldable pub announce : Event → Ingest → Ingest
  announce e i = record i { world = record i.world { bus = publish e i.world.bus } }

  -- _set_online
  unfoldable pub set_presence : Text → Bool → Time → Ingest → Ingest
  unfolding with_db with_engine announce set_st st
  set_presence device_id online now i =
      let i' =
        with_db (set_online device_id online)
          (set_st device_id (record (st device_id i) { online = online }) i) in
      let f : World → World =
        if online then on_online device_id now else on_offline device_id now in
      announce (Event.presence device_id online) (with_engine f i')

  -- _seen
  unfoldable pub seen : Text → Time → Ingest → Ingest
  unfolding set_presence set_st st
  seen device_id now i =
      let s = st device_id i in
      let i' = set_st device_id (record s { last_seen = some now }) i in
      if s.online then i' else set_presence device_id true now i'

  abbrev time_f : Time → Float
  time_f now = fl.div (fl.of_ℕ now) (fl.of_ℕ second)

  -- The numbers of the dict d; its texts and its lists are left out, since a rule that names one
  -- of them raises at float(t[metric]).
  unfoldable pub reading_of : Telemetry → Header → Float → Time → Reading
  reading_of t h loss now = record {
    metrics =
        (text "rpm", t.rpm)
        ∷ (text "temp_c", t.temp_c)
        ∷ (text "current_a", t.current_a)
        ∷ (text "voltage_v", t.voltage_v)
        ∷ (text "vibration_g", t.vibration_g)
        ∷ (text "speed_kph", t.speed_kph)
        ∷ (text "lat", t.lat)
        ∷ (text "lon", t.lon)
        ∷ (text "fault_flags", fl.of_ℕ t.fault_flags)
        ∷ (text "state", fl.of_ℕ t.state)
        ∷ (text "ts", time_f now)
        ∷ (text "device_ts_ms", fl.of_ℕ h.ts_ms)
        ∷ (text "seq", fl.of_ℕ h.seq)
        ∷ (text "loss_pct", loss)
        ∷ [];
    fault_flags = t.fault_flags;
  }

  abbrev sample_of : Telemetry → Header → Time → Sample
  sample_of t h now = record {
    device_id = h.device_id;
    ts = now;
    seq = h.seq;
    rpm = t.rpm;
    temp_c = t.temp_c;
    current_a = t.current_a;
    voltage_v = t.voltage_v;
    vibration_g = t.vibration_g;
    speed_kph = t.speed_kph;
    lat = t.lat;
    lon = t.lon;
    fault_flags = t.fault_flags;
    state = t.state;
  }

  -- The columns that handle_telemetry writes.
  unfoldable pub telemetry_columns : Telemetry → Header → Time → Device → Device
  telemetry_columns t h now d = record d {
    state = t.state;
    lat = some t.lat;
    lon = some t.lon;
    fw_version = some (fw_decode h.fw_version);
    fw_version_u32 = some h.fw_version;
    last_seen = some now;
  }

  -- round(now * 1000.0 - ts_ms, 1)
  abbrev transit_of : Header → Time → Float
  transit_of h now = fl.round (fl.sub (fl.mul (time_f now) (fl.lit 10000 1)) (fl.of_ℕ h.ts_ms)) 1

  -- The counters, before anything is stored.
  unfoldable pub counted : Header → Time → DeviceStats → DeviceStats
  counted h now s = record (note_seq h.seq (record s { frames_rx = s.frames_rx + 1 })) {
    transit_ms = some (transit_of h now);
  }

  -- engine.on_telemetry, then publish_telemetry of what it returned.
  unfoldable pub judge_sample : Text → Reading → Float → Time → Ingest → Ingest
  judge_sample device_id d loss now i =
      let (w, fired) = on_telemetry device_id d now (some loss) i.world in
      record i {
        world = record w {
          bus = (publish_telemetry device_id (Event.telemetry device_id d fired) now w.bus).0;
        };
      }

  -- The device's new statistics, `latest`, the buffered row and the device's row.
  store_sample : Header → Telemetry → DeviceStats → Reading → Time → Ingest → Ingest
  unfolding set_st with_db
  store_sample h t s d now i =
      let i1 : Ingest = record (set_st h.device_id s i) {
        latest = insert h.device_id d i.latest;
      } in
      let i2 = with_db (buffer_telemetry (sample_of t h now)) i1 in
      with_db (upsert_device h.device_id (telemetry_columns t h now) now) i2

  unfoldable pub handle_telemetry : Header → Telemetry → Time → Ingest → Ingest
  unfolding st seen reading_of counted judge_sample store_sample
  handle_telemetry h t now i =
      let s = counted h now (st h.device_id i) in
      let d = reading_of t h (loss_pct s) now in
      judge_sample h.device_id d (loss_pct s) now
        (seen h.device_id now (store_sample h t s d now i))

  -- Only a TELEMETRY frame with its payload is taken from UDP.
  take_frame : ℕ → Header → Payload → Time → Ingest → Ingest
  unfolding handle_telemetry
  take_frame ty h (Payload.telemetry t) now i =
      if ty == MsgType.telemetry then handle_telemetry h t now i else i
  take_frame ty h p now i = i

  count_bad : Text → Ingest → Ingest
  unfolding st set_st
  count_bad device_id i =
      set_st device_id (record (st device_id i) { bad_crc = (st device_id i).bad_crc + 1 }) i

  -- `except P.ProtocolError`; _UdpProto drops any other exception.
  caught : Error → Ingest → Ingest → Ingest
  caught e handled i = if is_protocol_error e then handled else i

  take_decoded : Result Frame → Text → Time → Ingest → Ingest
  unfolding take_frame count_bad caught
  take_decoded (err e) device_id now i = caught e (count_bad device_id i) i
  take_decoded (ok f) device_id now i = take_frame f.header.msg_type f.header f.payload now i

  take_header : Result Header → Bytes → Time → Ingest → Ingest
  unfolding take_decoded caught st set_st
  take_header (err e) bytes now i =
      caught e (record i { global_bad_frames = i.global_bad_frames + 1 }) i
  take_header (ok h) bytes now i =
      take_decoded (decode bytes) h.device_id now (set_st h.device_id (st h.device_id i) i)

  -- on_datagram, and datagram_received around it.
  unfoldable pub on_datagram : Bytes → Time → Ingest → Ingest
  unfolding take_header
  on_datagram bytes now i =
      take_header (unpack_header bytes) bytes now (record i { total_frames = i.total_frames + 1 })
