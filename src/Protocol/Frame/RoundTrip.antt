-- ===== src/Protocol/Frame/RoundTrip.antt =====
-- A frame is read back from the bytes that it is encoded to, whatever follows them.
use ecu_telemetry.Prelude.{
  ℕ, ◌+◌, ◌-◌, ◌%◌, ◌^◌, ◌≤◌, ◌<◌, ◌≡◌, refl, sym, ap, ◌∙◌, [], ◌∷◌, ◌++◌, arith, append_assoc,
  append-nil, ==_refl, leb_of_le, length, length-append, take, take-append, drop-append,
}
use ecu_telemetry.Python.Result.{ok}
use ecu_telemetry.Python.Floats.{Floats}
use ecu_telemetry.Python.Struct.{Bytes, u32, pack, read, calcsize, unpack_from_front, pack-read}
use ecu_telemetry.Python.Text.{Text}
use ecu_telemetry.Protocol.Text.{FitsText}
use ecu_telemetry.Protocol.Header.{
  Header, header_len, max_payload, pack_header, unpack_header, current_version,
}
use ecu_telemetry.Protocol.Header.RoundTrip.{FitsHeader, unpack_header-pack_header}
use ecu_telemetry.Protocol.Payload.Types.{Payload}
use ecu_telemetry.Protocol.Payload.Codec.{unpack_payload, payload_type}
use ecu_telemetry.Protocol.Payload.RoundTrip.{FitsPayload, unpack_payload-pack_payload}
use ecu_telemetry.Protocol.Frame.{encode, decode, decode_body, decode_payload, checksum, total_len}

module _ ⦃fl : Floats⦄ where
  -- The parts of a frame's bytes, and what decoding needs to know of them.
  decode_body-parts :
      (h : Header) (p : Payload) (head body crc rest : Bytes)
      → length head ≡ header_len
      → length body ≡ h.payload_len
      → length crc ≡ 4
      → read (u32 ∷ []) crc ≡ (checksum (head ++ body), tt)
      → unpack_payload h.msg_type body ≡ ok p
      → decode_body h (((head ++ body) ++ crc) ++ rest)
        ≡ ok (record { header = h; payload = p; raw = (head ++ body) ++ crc })
  unfolding decode_body decode_payload
  decode_body-parts h p head body crc rest lh lb lc r u =
      let hb = head ++ body in
      let lhb : length hb ≡ total_len h - 4 = omega (arith, length-append head body) in
      let all : length (hb ++ crc) ≡ total_len h =
        omega (arith, length-append hb crc, length-append head body) in
      rw (
        leb_of_le (total_len h) (length ((hb ++ crc) ++ rest))
            (omega (arith, length-append (hb ++ crc) rest)),
        take-append (total_len h) (hb ++ crc) rest all,
        drop-append (total_len h - 4) hb crc lhb,
        take-append (total_len h - 4) hb crc lhb,
        drop-append header_len head body lh,
        unpack_from_front (u32 ∷ []) (checksum hb, tt) crc (unfold calcsize in omega arith) r,
        ==_refl (checksum hb),
        u,
      )

  decode-parts :
      (h : Header) (p : Payload) (head body crc rest : Bytes)
      → length head ≡ header_len
      → length body ≡ h.payload_len
      → length crc ≡ 4
      → read (u32 ∷ []) crc ≡ (checksum (head ++ body), tt)
      → unpack_payload h.msg_type body ≡ ok p
      → ((more : Bytes) → unpack_header (head ++ more) ≡ ok h)
      → decode (((head ++ body) ++ crc) ++ rest)
        ≡ ok (record { header = h; payload = p; raw = (head ++ body) ++ crc })
  unfolding decode
  decode-parts h p head body crc rest lh lb lc r u uh =
      let front : unpack_header (((head ++ body) ++ crc) ++ rest) ≡ ok h =
        rw (append_assoc (head ++ body) crc rest, append_assoc head body (crc ++ rest))
          (uh (body ++ (crc ++ rest))) in
      rw front (decode_body-parts h p head body crc rest lh lb lc r u)

  header_front :
      (h : Header) (head body crc : Bytes)
      → length head ≡ header_len
      → ((more : Bytes) → unpack_header (head ++ more) ≡ ok h)
      → unpack_header (take header_len ((head ++ body) ++ crc)) ≡ ok h
  header_front h head body crc lh uh =
      rw (append_assoc head body crc, take-append header_len head (body ++ crc) lh)
        (rw append-nil at (uh []))

  -- The header that arrives: the counters are cut to their fields' widths.
  abbrev pub arrived : ℕ → Text → ℕ → ℕ → ℕ → ℕ → Header
  arrived msg_type device_id seq ts_ms fw_version len = record {
    msg_type = msg_type;
    device_id = device_id;
    seq = seq % 2 ^ 32;
    ts_ms = ts_ms % 2 ^ 64;
    fw_version = fw_version % 2 ^ 32;
    payload_len = len;
    version = current_version;
  }

  -- The masks of pack make a header and the one that arrives the same bytes.
  pack_arrived :
      (t : ℕ) (dev : Text) (seq ts fw n : ℕ)
      → pack_header (arrived t dev seq ts fw n)
        ≡ pack_header (record {
          msg_type = t;
          device_id = dev;
          seq = seq;
          ts_ms = ts;
          fw_version = fw;
          payload_len = n;
          version = current_version;
        })
  unfolding pack_header
  pack_arrived t dev seq ts fw n =
      let seq_twice : seq % 2 ^ 32 % 2 ^ 32 ≡ seq % 2 ^ 32 = omega arith in
      let ts_twice : ts % 2 ^ 64 % 2 ^ 64 ≡ ts % 2 ^ 64 = omega arith in
      let fw_twice : fw % 2 ^ 32 % 2 ^ 32 ≡ fw % 2 ^ 32 = omega arith in
      rw (seq_twice, ts_twice, fw_twice)

  pack_checksum :
      (n : ℕ)
      → n < 2 ^ 32
      → (b : Bytes) × (pack (u32 ∷ []) (n, tt) ≡ ok b)
        × (length b ≡ 4)
        × (read (u32 ∷ []) b ≡ (n, tt))
  pack_checksum n h =
      let (b, p, l, r) = pack-read (u32 ∷ []) (n, tt) (h, tt) in
      (b, p, unfold calcsize in l, rw append-nil at (r []))

  -- Encoding a payload that the wire format can carry, of a type below 256 and with a device id of
  -- fewer than 12 plain characters, succeeds within the limits of a frame's length; the header is
  -- parsed from the first 36 bytes, and decoding gives the payload and the header with its counters
  -- cut to their widths, whatever bytes follow the frame.
  pub decode-encode :
      (g : ℕ) (dev : Text) (seq ts fw : ℕ) (p : Payload)
      → payload_type g p < 256
      → FitsText 12 dev
      → FitsPayload g p
      → (b : Bytes) × (encode (payload_type g p) dev seq ts fw p ≡ ok b)
        × (header_len + 4 ≤ length b)
        × (length b ≤ header_len + max_payload + 4)
        × (unpack_header (take header_len b)
            ≡ ok (arrived (payload_type g p) dev seq ts fw (length b - 40)))
        × ((rest : Bytes)
            → decode (b ++ rest)
              ≡ ok (record {
                header = arrived (payload_type g p) dev seq ts fw (length b - 40);
                payload = p;
                raw = b;
              }))
  unfolding encode
  decode-encode g dev seq ts fw p ht hd hp =
      let t = payload_type g p in
      let (body, pb, lb, ub) = unpack_payload-pack_payload g p hp in
      let h = arrived t dev seq ts fw (length body) in
      let fits : FitsHeader h = record {
        msg_type = ht;
        device_id = hd;
        seq = omega arith;
        ts_ms = omega arith;
        fw_version = omega arith;
        payload_len = lb;
        version = refl;
      } in
      let (head, ph, lh, uh) = unpack_header-pack_header h fits in
      let (crc, pc, lc, rc) = pack_checksum (checksum (head ++ body)) (omega arith) in
      let b = (head ++ body) ++ crc in
      let len : length b - 40 ≡ length body =
        omega (arith, length-append (head ++ body) crc, length-append head body) in
      (
        b,
        rw (
          pb,
          leb_of_le (length body) max_payload lb,
          sym (pack_arrived t dev seq ts fw (length body)) ∙ ph,
          pc,
        ),
        omega (arith, length-append (head ++ body) crc, length-append head body),
        omega (arith, length-append (head ++ body) crc, length-append head body),
        header_front h head body crc lh uh
            ∙ (ap (λ (n : ℕ). ok (arrived t dev seq ts fw n)) (sym len)),
        λ rest.
            decode-parts h p head body crc rest lh refl lc rc ub uh
            ∙ ap
                (λ (n : ℕ).
                  ok (record { header = arrived t dev seq ts fw n; payload = p; raw = b }))
                (sym len),
      )
