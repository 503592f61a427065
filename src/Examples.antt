-- ===== src/Examples.antt =====
-- Concrete values for the theorems: floats of two values, a frame, a world and a server.
mod Wire
mod Judged
mod Server
mod Answers
mod Stores
mod Scenarios
use ecu_telemetry.Prelude.{
  ℕ, ◌*◌, ◌^◌, ◌<◌, ◌≡◌, refl, Bool, true, false, not, ◌&&◌, ◌||◌, Option, none, some, List, [],
  ◌∷◌, arith, ltb, ◌==◌, if◌then◌else◌,
}
use ecu_telemetry.Python.Floats.{Floats}
use ecu_telemetry.Python.Text.{Text, text}
use ecu_telemetry.Bus.{EventBus, second}
use ecu_telemetry.Protocol.Payload.Types.{Heartbeat, Payload}
use ecu_telemetry.Db.Types.{Database}
use ecu_telemetry.Db.Alerts.Unique.{IsUnique}
use ecu_telemetry.Db.Alerts.{open_count}
use ecu_telemetry.World.Types.{
  Op, ValueSpec, Threshold, AnomalyRule, Rules, Engine, DeviceState, Event, World,
}
use ecu_telemetry.Ingest.State.{Ingest, Net}

abbrev pub f32_bits : Bool → Option ℕ
f32_bits true = some 1
f32_bits false = some 0

abbrev pub bit : Bool → ℕ
bit true = 1
bit false = 0

pub bit-bound : (x : Bool) → bit x < 2 ^ 64
bit-bound true = omega arith
bit-bound false = omega arith

pub f32_bits-bound : (x : Bool) (b : ℕ) → f32_bits x ≡ some b → b < 2 ^ 32
f32_bits-bound true b h = ground arith
f32_bits-bound false b h = ground arith

pub bit-back : (x : Bool) → (bit x == 1) ≡ x
bit-back true = refl
bit-back false = refl

-- Floats that are 0 or 1.
instance abbrev pub two : Floats
two = record {
  Float = Bool;
  lit = λ m d. ltb 0 m;
  of_ℕ = λ n. ltb 0 n;
  add = λ x y. x || y;
  sub = λ x y. x && not y;
  mul = λ x y. x && y;
  div = λ x y. x;
  abs = λ x. x;
  sqrt = λ x. x;
  round = λ x n. x;
  format = λ x n. if x then text "1" else text "0";
  str = λ x. if x then text "1" else text "0";
  parse = λ s. none;
  lt = λ x y. not x && y;
  le = λ x y. not x || y;
  f32_pack = f32_bits;
  f32_unpack = λ n. n == 1;
  f64_pack = bit;
  f64_unpack = λ n. n == 1;
  f32_pack-lt = f32_bits-bound;
  f64_pack-lt = bit-bound;
  f64_unpack-f64_pack = bit-back;
}

abbrev pub device : Text
device = text "e1"

abbrev pub beat : Payload
beat =
    Payload.heartbeat (record { uptime_s = 7; frames_sent = 9; config_version = 2; reconnects = 1 })

abbrev pub empty : Database
empty = record {
  devices = [];
  tel_buf = [];
  telemetry = [];
  rollups = [];
  rollup_upto = none;
  logs = [];
  next_log = 1;
  alerts = [];
  next_alert = 1;
  configs = [];
  firmware = [];
  fw_jobs = [];
  next_job = 1;
  faults = [];
  next_fault = 1;
  stats = [];
  diagnoses = [];
  next_diagnosis = 1;
}

abbrev pub anomaly : AnomalyRule
anomaly = record {
  enabled = false;
  z = true;
  sustain = 3;
  sustain_time = 3 * second;
  alpha = true;
  warmup = 1;
  min_std = true;
  metrics = [];
  gate = none;
  severity = text "warn";
}

abbrev pub temp_high : Threshold
temp_high = record {
  name = text "temp_high";
  metric = text "temp_c";
  op = Op.gt;
  value = ValueSpec.number false;
  severity = text "warn";
  overrides = [];
}

abbrev pub rules : Rules
rules = record {
  resolve_after = 10 * second;
  thresholds = temp_high ∷ [];
  comm_loss_pct = some false;
  comm_severity = text "warn";
  offline_enabled = true;
  offline_severity = text "critical";
  flags_enabled = true;
  flags_severity = [];
  rate = [];
  anomaly = anomaly;
}

-- A rule of the device that was last seen true at time 5.
abbrev pub hot : DeviceState
hot = record { rate_hist = []; ewma = []; active = (text "temp_high", 5) ∷ [] }

abbrev pub world : World
world = record {
  db = empty;
  engine = record { rules = rules; devices = (device, hot) ∷ []; config_cache = []; hw_cache = [] };
  bus = record { subs = []; next_sub = 0; maxsize = 1000; last_tel = []; published = 0 };
}

abbrev pub server : Ingest
server = record {
  stats = [];
  writers = [];
  latest = [];
  global_bad_frames = 0;
  total_frames = 0;
  sent = [];
  world = world;
}

-- A network that takes everything.
abbrev pub net : Net
net = record { is_closing = λ c. false; accepts = λ c b. true }

pub world-IsUnique : IsUnique empty
unfolding open_count
world-IsUnique = (λ d r. omega arith, tt)
