-- ===== src/Protocol/Payload/Codec.antt =====
-- pack and unpack of each payload class, and PAYLOAD_CLASSES.
use ecu_telemetry.Prelude.{
  ℕ, ◌-◌, ◌%◌, ◌^◌, List, [], ◌∷◌, ◌++◌, leb, ◌==◌, if◌then◌else◌, length, take, drop,
}
use ecu_telemetry.Python.Result.{Result, ok, require, bad_length, ◌>>=◌, ◌>>◌}
use ecu_telemetry.Python.Floats.{Floats}
use ecu_telemetry.Python.Struct.{Bytes, Field, u8, u16, u32, f32, f64, Vals, pack, unpack}
use ecu_telemetry.Python.Utf8.{utf8_encode, utf8_decode}
use ecu_telemetry.Protocol.Text.{cstr, pad}
use ecu_telemetry.Protocol.Header.{max_payload}
use ecu_telemetry.Protocol.Payload.Types.{
  Telemetry, Hello, Heartbeat, Log, ConfigSet, ConfigAck, FwUpdate, FwAck, FaultInject, Payload,
}
use ecu_telemetry.Protocol.MsgType

abbrev pub telemetry_fmt : List Field
telemetry_fmt = f32 ∷ f32 ∷ f32 ∷ f32 ∷ f32 ∷ f32 ∷ f64 ∷ f64 ∷ u32 ∷ u8 ∷ Field.pad 3 ∷ []

abbrev pub hello_fmt : List Field
hello_fmt = Field.chars 16 ∷ Field.chars 16 ∷ u32 ∷ u16 ∷ u16 ∷ []

abbrev pub heartbeat_fmt : List Field
heartbeat_fmt = u32 ∷ u32 ∷ u32 ∷ u32 ∷ []

abbrev pub byte_fmt : List Field
byte_fmt = u8 ∷ Field.pad 3 ∷ []

abbrev pub config_set_fmt : List Field
config_set_fmt = u32 ∷ u16 ∷ u8 ∷ u8 ∷ f32 ∷ f32 ∷ f32 ∷ []

abbrev pub config_ack_fmt : List Field
config_ack_fmt = u32 ∷ u8 ∷ Field.pad 3 ∷ []

abbrev pub fw_update_fmt : List Field
fw_update_fmt = Field.chars 16 ∷ u32 ∷ u32 ∷ []

abbrev pub fw_ack_fmt : List Field
fw_ack_fmt = u8 ∷ Field.pad 3 ∷ Field.chars 16 ∷ []

abbrev pub fault_inject_fmt : List Field
fault_inject_fmt = u32 ∷ u32 ∷ u32 ∷ []

abbrev pub fault_ack_fmt : List Field
fault_ack_fmt = u32 ∷ []

-- b[0]
abbrev pub first_byte : Bytes → ℕ
first_byte [] = 0
first_byte (x ∷ b) = x

module _ ⦃fl : Floats⦄ where
  abbrev pub telemetry_values : Telemetry → Vals telemetry_fmt
  telemetry_values t = (
    t.rpm,
    (
      t.temp_c,
      (
        t.current_a,
        (
          t.voltage_v,
          (
            t.vibration_g,
            (t.speed_kph, (t.lat, (t.lon, (t.fault_flags % 2 ^ 32, (t.state % 2 ^ 8, (tt, tt)))))),
          ),
        ),
      ),
    ),
  )

  abbrev pub hello_values : Hello → Vals hello_fmt
  hello_values p =
      (pad p.fw_string 16, (pad p.hw_model 16, (p.config_version, (p.telemetry_hz, (0, tt)))))

  abbrev pub heartbeat_values : Heartbeat → Vals heartbeat_fmt
  heartbeat_values p = (p.uptime_s, (p.frames_sent, (p.config_version, (p.reconnects, tt))))

  abbrev pub config_set_values : ConfigSet → Vals config_set_fmt
  config_set_values p = (
    p.config_version,
    (p.telemetry_hz, (p.log_level, (0, (p.rpm_limit, (p.temp_limit_c, (p.current_limit_a, tt)))))),
  )

  abbrev pub config_ack_values : ConfigAck → Vals config_ack_fmt
  config_ack_values p = (p.config_version, (p.status, (tt, tt)))

  abbrev pub fw_update_values : FwUpdate → Vals fw_update_fmt
  fw_update_values p = (pad p.target_version 16, (p.image_size_bytes, (p.image_crc, tt)))

  abbrev pub fw_ack_values : FwAck → Vals fw_ack_fmt
  fw_ack_values p = (p.status, (tt, (pad p.version 16, tt)))

  abbrev pub fault_inject_values : FaultInject → Vals fault_inject_fmt
  fault_inject_values p = (p.set_flags, (p.clear_flags, (p.duration_ms, tt)))

  unfoldable pub pack_log : Log → Result Bytes
  pack_log p = do
    head ← pack byte_fmt (p.level, (tt, tt))
    message ← utf8_encode p.message
    ok (head ++ take (max_payload - 4) message)

  -- payload.pack(); bytes stand for themselves.
  unfoldable pub pack_payload : Payload → Result Bytes
  pack_payload (Payload.telemetry p) = pack telemetry_fmt (telemetry_values p)
  pack_payload (Payload.hello p) = pack hello_fmt (hello_values p)
  pack_payload (Payload.heartbeat p) = pack heartbeat_fmt (heartbeat_values p)
  pack_payload (Payload.log p) = pack_log p
  pack_payload (Payload.config_set p) = pack config_set_fmt (config_set_values p)
  pack_payload (Payload.config_ack p) = pack config_ack_fmt (config_ack_values p)
  pack_payload (Payload.fw_update p) = pack fw_update_fmt (fw_update_values p)
  pack_payload (Payload.fw_ack p) = pack fw_ack_fmt (fw_ack_values p)
  pack_payload (Payload.fault_inject p) = pack fault_inject_fmt (fault_inject_values p)
  pack_payload (Payload.fault_ack p) = pack fault_ack_fmt (p.active_flags, tt)
  pack_payload (Payload.cmd p) = pack byte_fmt (p.cmd, (tt, tt))
  pack_payload (Payload.raw b) = ok b

  abbrev pub telemetry_of : Vals telemetry_fmt → Payload
  telemetry_of (rpm, (temp, (cur, (volt, (vib, (speed, (lat, (lon, (flags, (state, _)))))))))) =
      Payload.telemetry (record {
        rpm = rpm;
        temp_c = temp;
        current_a = cur;
        voltage_v = volt;
        vibration_g = vib;
        speed_kph = speed;
        lat = lat;
        lon = lon;
        fault_flags = flags;
        state = state;
      })

  abbrev pub hello_of : Vals hello_fmt → Payload
  hello_of (fw, (hw, (cv, (hz, _)))) =
      Payload.hello
        (record { fw_string = cstr fw; hw_model = cstr hw; config_version = cv; telemetry_hz = hz })

  abbrev pub heartbeat_of : Vals heartbeat_fmt → Payload
  heartbeat_of (up, (sent, (cv, (rec, _)))) =
      Payload.heartbeat
        (record { uptime_s = up; frames_sent = sent; config_version = cv; reconnects = rec })

  abbrev pub config_set_of : Vals config_set_fmt → Payload
  config_set_of (cv, (hz, (ll, (_, (rpm, (temp, (cur, _))))))) = Payload.config_set (record {
    config_version = cv;
    telemetry_hz = hz;
    log_level = ll;
    rpm_limit = rpm;
    temp_limit_c = temp;
    current_limit_a = cur;
  })

  abbrev pub config_ack_of : Vals config_ack_fmt → Payload
  config_ack_of (cv, (st, _)) = Payload.config_ack (record { config_version = cv; status = st })

  abbrev pub fw_update_of : Vals fw_update_fmt → Payload
  fw_update_of (v, (sz, (crc, _))) =
      Payload.fw_update (record { target_version = cstr v; image_size_bytes = sz; image_crc = crc })

  abbrev pub fw_ack_of : Vals fw_ack_fmt → Payload
  fw_ack_of (st, (_, (v, _))) = Payload.fw_ack (record { status = st; version = cstr v })

  abbrev pub fault_inject_of : Vals fault_inject_fmt → Payload
  fault_inject_of (set, (clear, (ms, _))) =
      Payload.fault_inject (record { set_flags = set; clear_flags = clear; duration_ms = ms })

  abbrev pub fault_ack_of : Vals fault_ack_fmt → Payload
  fault_ack_of (flags, _) = Payload.fault_ack (record { active_flags = flags })

  -- `if len(b) != n: raise BadLength`, then struct.unpack and the class's constructor.
  unfoldable pub unpack_as : (fs : List Field) → ℕ → (Vals fs → Payload) → Bytes → Result Payload
  unpack_as fs n make b = do
    require (length b == n) bad_length
    values ← unpack fs b
    ok (make values)

  unfoldable pub unpack_log : Bytes → Result Payload
  unpack_log b = do
    require (leb 4 (length b)) bad_length
    ok (Payload.log (record { level = first_byte b; message = utf8_decode (drop 4 b) }))

  unfoldable pub unpack_cmd : Bytes → Result Payload
  unpack_cmd b = do
    require (length b == 4) bad_length
    ok (Payload.cmd (record { cmd = first_byte b }))

  -- `cls = PAYLOAD_CLASSES.get(msg_type)`, then `cls.unpack(raw) if cls else raw`.
  unfoldable pub unpack_payload : ℕ → Bytes → Result Payload
  unpack_payload t b =
      if t == MsgType.telemetry
      then unpack_as telemetry_fmt 48 telemetry_of b
      else if t == MsgType.hello
      then unpack_as hello_fmt 40 hello_of b
      else if t == MsgType.heartbeat
      then unpack_as heartbeat_fmt 16 heartbeat_of b
      else if t == MsgType.log
      then unpack_log b
      else if t == MsgType.config_set
      then unpack_as config_set_fmt 20 config_set_of b
      else if t == MsgType.config_ack
      then unpack_as config_ack_fmt 8 config_ack_of b
      else if t == MsgType.fw_update
      then unpack_as fw_update_fmt 24 fw_update_of b
      else if t == MsgType.fw_ack
      then unpack_as fw_ack_fmt 20 fw_ack_of b
      else if t == MsgType.fault_inject
      then unpack_as fault_inject_fmt 12 fault_inject_of b
      else if t == MsgType.fault_ack
      then unpack_as fault_ack_fmt 4 fault_ack_of b
      else if t == MsgType.cmd
      then unpack_cmd b
      else ok (Payload.raw b)

  -- payload.TYPE; `given` for raw bytes, whose type the caller names.
  unfoldable pub payload_type : ℕ → Payload → ℕ
  payload_type given (Payload.telemetry p) = MsgType.telemetry
  payload_type given (Payload.hello p) = MsgType.hello
  payload_type given (Payload.heartbeat p) = MsgType.heartbeat
  payload_type given (Payload.log p) = MsgType.log
  payload_type given (Payload.config_set p) = MsgType.config_set
  payload_type given (Payload.config_ack p) = MsgType.config_ack
  payload_type given (Payload.fw_update p) = MsgType.fw_update
  payload_type given (Payload.fw_ack p) = MsgType.fw_ack
  payload_type given (Payload.fault_inject p) = MsgType.fault_inject
  payload_type given (Payload.fault_ack p) = MsgType.fault_ack
  payload_type given (Payload.cmd p) = MsgType.cmd
  payload_type given (Payload.raw b) = given
