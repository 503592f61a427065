-- ===== src/Protocol/Header/RoundTrip.antt =====
-- A header is read back from the bytes that it packs to, whatever follows.
use ecu_telemetry.Prelude.{◌^◌, ◌≤◌, ◌<◌, ◌≡◌, ◌++◌, arith, length, length-append, leb_of_le}
use native.Mathlib.Nat.{mod-eq_of_lt}
use ecu_telemetry.Python.Result.{ok}
use ecu_telemetry.Python.Floats.{Floats}
use ecu_telemetry.Python.Struct.{Bytes, Fits, pack-read, unpack_from_front, read, calcsize}
use ecu_telemetry.Protocol.Text.{FitsText, cstr-pad, length-pad}
use ecu_telemetry.Protocol.Header.{
  Header, header_fmt, header_len, header_values, pack_header, unpack_header, check_header,
  max_payload, current_version,
}

-- What the wire format can carry.
pub record FitsHeader (h : Header) : Type 0 where
  pub msg_type : h.msg_type < 256
  pub device_id : FitsText 12 h.device_id
  pub seq : h.seq < 2 ^ 32
  pub ts_ms : h.ts_ms < 2 ^ 64
  pub fw_version : h.fw_version < 2 ^ 32
  pub payload_len : h.payload_len ≤ max_payload
  pub version : h.version ≡ current_version

module _ ⦃fl : Floats⦄ where
  values_fit : (h : Header) → FitsHeader h → Fits header_fmt (header_values h)
  values_fit h f = (
    omega arith,
    (
      omega arith,
      (
        omega arith,
        (
          length-pad h.device_id 12,
          (omega arith, (omega arith, (omega arith, (omega arith, (omega arith, tt))))),
        ),
      ),
    ),
  )

  check-values : (h : Header) → FitsHeader h → check_header (header_values h) ≡ ok h
  unfolding check_header
  check-values h f = rw (
    f.version,
    leb_of_le h.payload_len max_payload f.payload_len,
    cstr-pad h.device_id 12 f.device_id,
    mod-eq_of_lt f.seq,
    mod-eq_of_lt f.ts_ms,
    mod-eq_of_lt f.fw_version,
  )

  unpack-front :
      (h : Header)
      → FitsHeader h
      → (b : Bytes) → header_len ≤ length b
      → read header_fmt b ≡ header_values h
      → unpack_header b ≡ ok h
  unfolding unpack_header
  unpack-front h f b l r =
      rw
        (
          leb_of_le header_len (length b) l,
          unpack_from_front header_fmt (header_values h) b (unfold calcsize in l) r,
        )
        (check-values h f)

  pub unpack_header-pack_header :
      (h : Header)
      → FitsHeader h
      → (b : Bytes) × (pack_header h ≡ ok b)
        × (length b ≡ header_len)
        × ((rest : Bytes) → unpack_header (b ++ rest) ≡ ok h)
  unpack_header-pack_header h f =
      let (b, p, l, r) = pack-read header_fmt (header_values h) (values_fit h f) in
      let len : length b ≡ header_len = unfold calcsize in l in
      (
        b,
        unfold pack_header in p,
        len,
        λ rest. unpack-front h f (b ++ rest) (omega (arith, length-append b rest)) (r rest),
      )
