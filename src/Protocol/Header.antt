-- ===== src/Protocol/Header.antt =====
-- The frame header: class Header of backend/app/protocol.py.
pub mod RoundTrip
use ecu_telemetry.Prelude.{ℕ, ◌+◌, ◌%◌, ◌^◌, ◌≡◌, List, [], ◌∷◌, ltb, leb, ◌==◌, length}
use ecu_telemetry.Python.Result.{
  Result, ok, err, require, bad_magic, bad_version, bad_length, ◌>>=◌, ◌>>◌,
}
use ecu_telemetry.Python.Floats.{Floats}
use ecu_telemetry.Python.Struct.{
  Bytes, Field, u8, u16, u32, u64, chars, Vals, pack, unpack_from, read,
}
use ecu_telemetry.Python.Text.{Text}
use ecu_telemetry.Protocol.Text.{cstr, pad}

abbrev pub magic : ℕ
magic = 0x4554

abbrev pub current_version : ℕ
current_version = 1

abbrev pub header_len : ℕ
header_len = 36

abbrev pub max_payload : ℕ
max_payload = 1024

-- "<HBB12sIQIHH"
abbrev pub header_fmt : List Field
header_fmt = u16 ∷ u8 ∷ u8 ∷ chars 12 ∷ u32 ∷ u64 ∷ u32 ∷ u16 ∷ u16 ∷ []

pub record Header : Type 0 where
  pub msg_type : ℕ
  pub device_id : Text
  pub seq : ℕ
  pub ts_ms : ℕ
  pub fw_version : ℕ
  pub payload_len : ℕ
  pub version : ℕ

module _ ⦃fl : Floats⦄ where
  abbrev pub header_values : Header → Vals header_fmt
  header_values h = (
    magic,
    (
      h.version,
      (
        h.msg_type,
        (
          pad h.device_id 12,
          (h.seq % 2 ^ 32, (h.ts_ms % 2 ^ 64, (h.fw_version % 2 ^ 32, (h.payload_len, (0, tt))))),
        ),
      ),
    ),
  )

  unfoldable pub pack_header : Header → Result Bytes
  pack_header h = pack header_fmt (header_values h)

  -- The tests on the unpacked fields, in order.
  unfoldable pub check_header : Vals header_fmt → Result Header
  check_header (m, (ver, (mt, (dev, (seq, (ts, (fw, (plen, _)))))))) = do
    require (m == magic) bad_magic
    require (ver == current_version) bad_version
    require (leb plen max_payload) bad_length
    ok (record {
      msg_type = mt;
      device_id = cstr dev;
      seq = seq;
      ts_ms = ts;
      fw_version = fw;
      payload_len = plen;
      version = ver;
    })

  unfoldable pub unpack_header : Bytes → Result Header
  unfolding check_header
  unpack_header buf = do
    require (leb header_len (length buf)) bad_length
    values ← unpack_from header_fmt buf
    check_header values
