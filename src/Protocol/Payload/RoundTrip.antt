-- ===== src/Protocol/Payload/RoundTrip.antt =====
-- Each payload is read back from the bytes that it packs to.
use ecu_telemetry.Prelude.{
  ℕ, ◌-◌, ◌^◌, ◌≤◌, ◌<◌, ◌≡◌, ◌≢◌, refl, ◌∙◌, some, List, [], ◌∷◌, arith, ==_refl, length, take_all,
  All,
}
use ecu_telemetry.Prelude.Bits.{le_bytes}
use native.Mathlib.Nat.{mod-eq_of_lt}
use ecu_telemetry.Python.Result.{ok}
use ecu_telemetry.Python.Floats.{Floats}
use ecu_telemetry.Python.Struct.{Bytes, Field, Vals, Fits, pack, calcsize, unpack-pack}
use ecu_telemetry.Python.Utf8.{IsScalar, utf8_encode, utf8_decode-utf8_encode}
use ecu_telemetry.Protocol.Text.{FitsText, cstr-pad, length-pad}
use ecu_telemetry.Protocol.Header.{max_payload}
use ecu_telemetry.Protocol.MsgType
use ecu_telemetry.Protocol.Payload.Types.{
  Telemetry, Hello, Heartbeat, Log, ConfigSet, ConfigAck, FwUpdate, FwAck, FaultInject, FaultAck,
  Cmd, Payload,
}
use ecu_telemetry.Protocol.Payload.Codec.{
  telemetry_fmt, hello_fmt, heartbeat_fmt, byte_fmt, config_set_fmt, config_ack_fmt, fw_update_fmt,
  fw_ack_fmt, fault_inject_fmt, fault_ack_fmt, telemetry_values, hello_values, heartbeat_values,
  config_set_values, config_ack_values, fw_update_values, fw_ack_values, fault_inject_values,
  telemetry_of, hello_of, heartbeat_of, config_set_of, config_ack_of, fw_update_of, fw_ack_of,
  fault_inject_of, fault_ack_of, pack_log, unpack_log, unpack_cmd, unpack_as, pack_payload,
  unpack_payload, payload_type,
}

-- The message types that have a payload class.
abbrev pub known_types : List ℕ
known_types =
    MsgType.telemetry ∷ MsgType.hello ∷ MsgType.heartbeat ∷ MsgType.log ∷ MsgType.config_set
    ∷ MsgType.config_ack ∷ MsgType.fw_update ∷ MsgType.fw_ack ∷ MsgType.fault_inject
    ∷ MsgType.fault_ack ∷ MsgType.cmd ∷ []

module _ ⦃fl : Floats⦄ where
  -- A float that has single precision: struct's format f stores it without loss.
  abbrev pub IsSingle : fl.Float → Type 0
  IsSingle x = (b : ℕ) × (fl.f32_pack x ≡ some b) × (fl.f32_unpack b ≡ x)

  -- What the wire format can carry, class by class.
  abbrev pub FitsPayload : ℕ → Payload → Type 0
  FitsPayload g (Payload.telemetry p) =
      IsSingle p.rpm
      × IsSingle p.temp_c
      × IsSingle p.current_a
      × IsSingle p.voltage_v
      × IsSingle p.vibration_g
      × IsSingle p.speed_kph
      × (p.fault_flags < 2 ^ 32)
      × (p.state < 2 ^ 8)
  FitsPayload g (Payload.hello p) =
      FitsText 16 p.fw_string
      × FitsText 16 p.hw_model
      × (p.config_version < 2 ^ 32)
      × (p.telemetry_hz < 2 ^ 16)
  FitsPayload g (Payload.heartbeat p) =
      (p.uptime_s < 2 ^ 32)
      × (p.frames_sent < 2 ^ 32)
      × (p.config_version < 2 ^ 32)
      × (p.reconnects < 2 ^ 32)
  FitsPayload g (Payload.log p) =
      (p.level < 2 ^ 8)
      × All IsScalar p.message
      × ((b : Bytes) → utf8_encode p.message ≡ ok b → length b ≤ max_payload - 4)
  FitsPayload g (Payload.config_set p) =
      (p.config_version < 2 ^ 32)
      × (p.telemetry_hz < 2 ^ 16)
      × (p.log_level < 2 ^ 8)
      × IsSingle p.rpm_limit
      × IsSingle p.temp_limit_c
      × IsSingle p.current_limit_a
  FitsPayload g (Payload.config_ack p) = (p.config_version < 2 ^ 32) × (p.status < 2 ^ 8)
  FitsPayload g (Payload.fw_update p) =
      FitsText 16 p.target_version × (p.image_size_bytes < 2 ^ 32) × (p.image_crc < 2 ^ 32)
  FitsPayload g (Payload.fw_ack p) = (p.status < 2 ^ 8) × FitsText 16 p.version
  FitsPayload g (Payload.fault_inject p) =
      (p.set_flags < 2 ^ 32) × (p.clear_flags < 2 ^ 32) × (p.duration_ms < 2 ^ 32)
  FitsPayload g (Payload.fault_ack p) = p.active_flags < 2 ^ 32
  FitsPayload g (Payload.cmd p) = p.cmd < 2 ^ 8
  FitsPayload g (Payload.raw b) = (length b ≤ max_payload) × All (λ t. g ≢ t) known_types

  -- The round trip of one payload, sent under the message type `g` if it is raw.
  abbrev pub RoundTrip : ℕ → Payload → Type 0
  RoundTrip g p =
      (b : Bytes) × (pack_payload p ≡ ok b)
      × (length b ≤ max_payload)
      × (unpack_payload (payload_type g p) b ≡ ok p)

  unpack_as-pack :
      (fs : List Field) (n : ℕ) (make : Vals fs → Payload) (vs : Vals fs)
      → n ≡ calcsize fs
      → Fits fs vs
      → (b : Bytes) × (pack fs vs ≡ ok b) × (length b ≡ n) × (unpack_as fs n make b ≡ ok (make vs))
  unfolding unpack_as
  unpack_as-pack fs n make vs size h =
      let (b, p, l, u) = unpack-pack fs vs h in
      let len : length b ≡ n = omega arith in (b, p, len, rw (len, ==_refl n, u))

  telemetry_trip :
      (g : ℕ) (p : Telemetry)
      → FitsPayload g (Payload.telemetry p)
      → RoundTrip g (Payload.telemetry p)
  unfolding pack_payload unpack_payload payload_type
  telemetry_trip g p (h0, h1, h2, h3, h4, h5, hf, hs) =
      let fits : Fits telemetry_fmt (telemetry_values p) =
        (h0, (h1, (h2, (h3, (h4, (h5, (tt, (tt, (omega arith, (omega arith, (tt, tt))))))))))) in
      let (b, e, l, u) =
        unpack_as-pack telemetry_fmt 48 telemetry_of (telemetry_values p) (unfold calcsize in refl)
          fits in
      (b, e, omega arith, u ∙ rw (mod-eq_of_lt hf, mod-eq_of_lt hs))

  hello_trip : (g : ℕ) (p : Hello) → FitsPayload g (Payload.hello p) → RoundTrip g (Payload.hello p)
  unfolding pack_payload unpack_payload payload_type
  hello_trip g p (hf, hh, hc, hz) =
      let fits : Fits hello_fmt (hello_values p) =
        (length-pad p.fw_string 16, (length-pad p.hw_model 16, (hc, (hz, (omega arith, tt))))) in
      let (b, e, l, u) =
        unpack_as-pack hello_fmt 40 hello_of (hello_values p) (unfold calcsize in refl) fits in
      (b, e, omega arith, u ∙ rw (cstr-pad p.fw_string 16 hf, cstr-pad p.hw_model 16 hh))

  heartbeat_trip :
      (g : ℕ) (p : Heartbeat)
      → FitsPayload g (Payload.heartbeat p)
      → RoundTrip g (Payload.heartbeat p)
  unfolding pack_payload unpack_payload payload_type
  heartbeat_trip g p (hu, hs, hc, hr) =
      let fits : Fits heartbeat_fmt (heartbeat_values p) = (hu, (hs, (hc, (hr, tt)))) in
      let (b, e, l, u) =
        unpack_as-pack heartbeat_fmt 16 heartbeat_of (heartbeat_values p) (unfold calcsize in refl)
          fits in
      (b, e, omega arith, u)

  config_set_trip :
      (g : ℕ) (p : ConfigSet)
      → FitsPayload g (Payload.config_set p)
      → RoundTrip g (Payload.config_set p)
  unfolding pack_payload unpack_payload payload_type
  config_set_trip g p (hc, hz, hl, h0, h1, h2) =
      let fits : Fits config_set_fmt (config_set_values p) =
        (hc, (hz, (hl, (omega arith, (h0, (h1, (h2, tt))))))) in
      let (b, e, l, u) =
        unpack_as-pack config_set_fmt 20 config_set_of (config_set_values p)
          (unfold calcsize in refl) fits in
      (b, e, omega arith, u)

  config_ack_trip :
      (g : ℕ) (p : ConfigAck)
      → FitsPayload g (Payload.config_ack p)
      → RoundTrip g (Payload.config_ack p)
  unfolding pack_payload unpack_payload payload_type
  config_ack_trip g p (hc, hs) =
      let fits : Fits config_ack_fmt (config_ack_values p) = (hc, (hs, (tt, tt))) in
      let (b, e, l, u) =
        unpack_as-pack config_ack_fmt 8 config_ack_of (config_ack_values p)
          (unfold calcsize in refl) fits in
      (b, e, omega arith, u)

  fw_update_trip :
      (g : ℕ) (p : FwUpdate)
      → FitsPayload g (Payload.fw_update p)
      → RoundTrip g (Payload.fw_update p)
  unfolding pack_payload unpack_payload payload_type
  fw_update_trip g p (ht, hs, hc) =
      let fits : Fits fw_update_fmt (fw_update_values p) =
        (length-pad p.target_version 16, (hs, (hc, tt))) in
      let (b, e, l, u) =
        unpack_as-pack fw_update_fmt 24 fw_update_of (fw_update_values p) (unfold calcsize in refl)
          fits in
      (b, e, omega arith, u ∙ rw (cstr-pad p.target_version 16 ht))

  fw_ack_trip :
      (g : ℕ) (p : FwAck) → FitsPayload g (Payload.fw_ack p) → RoundTrip g (Payload.fw_ack p)
  unfolding pack_payload unpack_payload payload_type
  fw_ack_trip g p (hs, hv) =
      let fits : Fits fw_ack_fmt (fw_ack_values p) = (hs, (tt, (length-pad p.version 16, tt))) in
      let (b, e, l, u) =
        unpack_as-pack fw_ack_fmt 20 fw_ack_of (fw_ack_values p) (unfold calcsize in refl) fits in
      (b, e, omega arith, u ∙ rw (cstr-pad p.version 16 hv))

  fault_inject_trip :
      (g : ℕ) (p : FaultInject)
      → FitsPayload g (Payload.fault_inject p)
      → RoundTrip g (Payload.fault_inject p)
  unfolding pack_payload unpack_payload payload_type
  fault_inject_trip g p (hs, hc, hd) =
      let fits : Fits fault_inject_fmt (fault_inject_values p) = (hs, (hc, (hd, tt))) in
      let (b, e, l, u) =
        unpack_as-pack fault_inject_fmt 12 fault_inject_of (fault_inject_values p)
          (unfold calcsize in refl) fits in
      (b, e, omega arith, u)

  fault_ack_trip :
      (g : ℕ) (p : FaultAck)
      → FitsPayload g (Payload.fault_ack p)
      → RoundTrip g (Payload.fault_ack p)
  unfolding pack_payload unpack_payload payload_type
  fault_ack_trip g p h =
      let fits : Fits fault_ack_fmt (p.active_flags, tt) = (h, tt) in
      let (b, e, l, u) =
        unpack_as-pack fault_ack_fmt 4 fault_ack_of (p.active_flags, tt) (unfold calcsize in refl)
          fits in
      (b, e, omega arith, u)

  pack-byte : (n : ℕ) → n < 2 ^ 8 → pack byte_fmt (n, (tt, tt)) ≡ ok (n ∷ 0 ∷ 0 ∷ 0 ∷ [])
  unfolding pack le_bytes
  pack-byte n h = ground arith

  cmd_trip : (g : ℕ) (p : Cmd) → FitsPayload g (Payload.cmd p) → RoundTrip g (Payload.cmd p)
  unfolding pack_payload unpack_payload payload_type unpack_cmd
  cmd_trip g p h = (p.cmd ∷ 0 ∷ 0 ∷ 0 ∷ [], pack-byte p.cmd h, omega arith, refl)

  log_trip : (g : ℕ) (p : Log) → FitsPayload g (Payload.log p) → RoundTrip g (Payload.log p)
  unfolding pack_payload unpack_payload payload_type pack_log unpack_log
  log_trip g p (hl, hm, hb) =
      let (m, e, d) = utf8_decode-utf8_encode p.message hm in
      let fits : length m ≤ max_payload - 4 = hb m e in
      (
        p.level ∷ 0 ∷ 0 ∷ 0 ∷ m,
        rw (pack-byte p.level hl, e, take_all 1020 m fits),
        omega arith,
        ground (arith, d),
      )

  raw_trip : (g : ℕ) (b : Bytes) → FitsPayload g (Payload.raw b) → RoundTrip g (Payload.raw b)
  unfolding pack_payload unpack_payload payload_type
  raw_trip g b (l, h) = (b, refl, l, ground arith)

  -- A payload that the wire format can carry packs to at most 1024 bytes, from which unpacking under
  -- its message type gives it back.
  pub unpack_payload-pack_payload : (g : ℕ) (p : Payload) → FitsPayload g p → RoundTrip g p
  unpack_payload-pack_payload g (Payload.telemetry p) h = telemetry_trip g p h
  unpack_payload-pack_payload g (Payload.hello p) h = hello_trip g p h
  unpack_payload-pack_payload g (Payload.heartbeat p) h = heartbeat_trip g p h
  unpack_payload-pack_payload g (Payload.log p) h = log_trip g p h
  unpack_payload-pack_payload g (Payload.config_set p) h = config_set_trip g p h
  unpack_payload-pack_payload g (Payload.config_ack p) h = config_ack_trip g p h
  unpack_payload-pack_payload g (Payload.fw_update p) h = fw_update_trip g p h
  unpack_payload-pack_payload g (Payload.fw_ack p) h = fw_ack_trip g p h
  unpack_payload-pack_payload g (Payload.fault_inject p) h = fault_inject_trip g p h
  unpack_payload-pack_payload g (Payload.fault_ack p) h = fault_ack_trip g p h
  unpack_payload-pack_payload g (Payload.cmd p) h = cmd_trip g p h
  unpack_payload-pack_payload g (Payload.raw b) h = raw_trip g b h
