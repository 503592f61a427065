-- ===== src/Protocol/Frame.antt =====
-- Whole frames: encode, encode_frame, frame_length and decode of backend/app/protocol.py.
pub mod RoundTrip
pub mod Reject
use ecu_telemetry.Prelude.{
  ℕ, ◌+◌, ◌-◌, ◌%◌, ◌^◌, ◌⊎◌, inl, inr, Option, none, some, List, [], ◌∷◌, ◌++◌, leb, ltb, ◌==◌,
  if◌then◌else◌, length, take, drop,
}
use ecu_telemetry.Python.Result.{Result, ok, err, require, bad_length, bad_crc, ◌>>=◌, ◌>>◌}
use ecu_telemetry.Python.Floats.{Floats}
use ecu_telemetry.Python.Struct.{Bytes, Field, u16, u32, Vals, pack, unpack_from}
use ecu_telemetry.Python.Text.{Text}
use ecu_telemetry.Python.Crc.{crc32}
use ecu_telemetry.Protocol.Firmware.{fw_encode}
use ecu_telemetry.Protocol.Header.{
  Header, pack_header, unpack_header, header_len, max_payload, current_version,
}
use ecu_telemetry.Protocol.Payload.Types.{Payload}
use ecu_telemetry.Protocol.Payload.Codec.{pack_payload, unpack_payload, payload_type}

-- zlib.crc32(b) & 0xFFFFFFFF
abbrev pub checksum : Bytes → ℕ
checksum b = crc32 b % 2 ^ 32

abbrev pub total_len : Header → ℕ
total_len h = header_len + h.payload_len + 4

module _ ⦃fl : Floats⦄ where
  pub record Frame : Type 0 where
    pub header : Header
    pub payload : Payload
    pub raw : Bytes

  unfoldable pub encode : ℕ → Text → ℕ → ℕ → ℕ → Payload → Result Bytes
  encode msg_type device_id seq ts_ms fw_version payload = do
    body ← pack_payload payload
    require (leb (length body) max_payload) bad_length
    hdr ← pack_header (record {
      msg_type = msg_type;
      device_id = device_id;
      seq = seq;
      ts_ms = ts_ms;
      fw_version = fw_version;
      payload_len = length body;
      version = current_version;
    })
    crc ← pack (u32 ∷ []) (checksum (hdr ++ body), tt)
    ok ((hdr ++ body) ++ crc)

  -- The version is a text or a number.
  fw_number : Text ⊎ ℕ → Result ℕ
  fw_number (inl version) = fw_encode version
  fw_number (inr n) = ok n

  unfoldable pub encode_frame : Text → ℕ → ℕ → Text ⊎ ℕ → Payload → Result Bytes
  unfolding fw_number
  encode_frame device_id seq ts_ms fw_version payload = do
    fw ← fw_number fw_version
    encode (payload_type 0 payload) device_id seq ts_ms fw payload

  length_at : Result (ℕ × Unit {0}) → Option ℕ
  length_at (ok (plen, _)) = some (header_len + plen + 4)
  length_at (err e) = none

  unfoldable pub frame_length : Bytes → Option ℕ
  unfolding length_at
  frame_length buf =
      if ltb (length buf) header_len then none else length_at (unpack_from (u16 ∷ []) (drop 32 buf))

  -- The checksum test and the payload, for the frame's own bytes.
  unfoldable pub decode_payload : Header → Bytes → Vals (u32 ∷ []) → Result Frame
  decode_payload hdr body (crc, _) = do
    require (checksum (take (total_len hdr - 4) body) == crc) bad_crc
    payload ← unpack_payload hdr.msg_type (drop header_len (take (total_len hdr - 4) body))
    ok (record { header = hdr; payload = payload; raw = body })

  -- What follows the header: the length test, then the parts that it guards.
  unfoldable pub decode_body : Header → Bytes → Result Frame
  decode_body hdr buf = do
    let total = total_len hdr
    require (leb total (length buf)) bad_length
    let body = take total buf
    crc ← unpack_from (u32 ∷ []) (drop (total - 4) body)
    decode_payload hdr body crc

  unfoldable pub decode : Bytes → Result Frame
  decode buf = do hdr ← unpack_header buf; decode_body hdr buf
