-- ===== src/Protocol/Frame/Reject.antt =====
-- What decode accepts and how it fails.
use ecu_telemetry.Prelude.{
  ℕ, ◌-◌, ◌≤◌, ◌≡◌, refl, sym, ◌∙◌, Bool, true, false, List, [], ◌∷◌, arith, leb, ◌==◌, ==_refl,
  ==_iff, leb_of_le, if◌then◌else◌, length, take, drop, length-take, length-drop,
}
use ecu_telemetry.Python.Result.{
  Result, ok, err, Error, require, bad_length, bad_crc, is_protocol_error, ◌>>=◌, ◌>>◌, >>=-eq-ok,
  require-eq-ok, ok-injective,
}
use mathlib.Core.Path.{subst}
use ecu_telemetry.Prelude.Bits.{le_value}
use ecu_telemetry.Python.Floats.{Floats}
use ecu_telemetry.Python.Struct.{Bytes, Field, u32, Vals, unpack, unpack_from, calcsize}
use ecu_telemetry.Protocol.Header.{
  Header, header_fmt, header_len, max_payload, unpack_header, check_header,
}
use ecu_telemetry.Protocol.MsgType
use ecu_telemetry.Protocol.Payload.Types.{Payload}
use ecu_telemetry.Protocol.Payload.Codec.{
  telemetry_fmt, hello_fmt, heartbeat_fmt, config_set_fmt, config_ack_fmt, fw_update_fmt,
  fw_ack_fmt, fault_inject_fmt, fault_ack_fmt, telemetry_of, hello_of, heartbeat_of, config_set_of,
  config_ack_of, fw_update_of, fw_ack_of, fault_inject_of, fault_ack_of, unpack_as, unpack_log,
  unpack_cmd, unpack_payload,
}
use ecu_telemetry.Protocol.Frame.{Frame, decode, decode_body, decode_payload, checksum, total_len}

-- The result is no exception, or a ProtocolError.
abbrev pub IsCaught {ℓ} : {A : Type ℓ} → Result A → Type 0
IsCaught (ok a) = Unit {0}
IsCaught (err e) = is_protocol_error e ≡ true

IsCaught-if {ℓ} :
    {A : Type ℓ} (b : Bool) (x y : Result A)
    → IsCaught x
    → IsCaught y
    → IsCaught (if b then x else y)
IsCaught-if true x y hx hy = hx
IsCaught-if false x y hx hy = hy

IsCaught-require {ℓ} :
    {A : Type ℓ} (b : Bool) (e : Error) (m : Result A)
    → is_protocol_error e ≡ true
    → (b ≡ true → IsCaught m)
    → IsCaught (require b e >> m)
IsCaught-require true e m p h = h refl
IsCaught-require false e m p h = p

IsCaught->>= {ℓ κ} :
    {A : Type ℓ} {B : Type κ} (m : Result A) (f : A → Result B)
    → IsCaught m
    → ((a : A) → IsCaught (f a))
    → IsCaught (m >>= f)
IsCaught->>= (ok a) f h k = k a
IsCaught->>= (err e) f h k = h

module _ ⦃fl : Floats⦄ where
  unpack-IsCaught : (fs : List Field) (b : Bytes) → length b ≡ calcsize fs → IsCaught (unpack fs b)
  unfolding unpack
  unpack-IsCaught fs b h = rw (h, ==_refl (calcsize fs)) tt

  unpack_from-IsCaught :
      (fs : List Field) (b : Bytes) → calcsize fs ≤ length b → IsCaught (unpack_from fs b)
  unfolding unpack_from
  unpack_from-IsCaught fs b h = rw (leb_of_le (calcsize fs) (length b) h) tt

  unpack_as-IsCaught :
      (fs : List Field) (n : ℕ) (make : Vals fs → Payload) (b : Bytes)
      → n ≡ calcsize fs
      → IsCaught (unpack_as fs n make b)
  unfolding unpack_as is_protocol_error
  unpack_as-IsCaught fs n make b h =
      IsCaught-require (length b == n) bad_length (unpack fs b >>= λ v. ok (make v)) refl λ e.
        IsCaught->>= (unpack fs b) (λ v. ok (make v)) (unpack-IsCaught fs b (ground (arith, h)))
          (λ v. tt)

  unpack_payload-IsCaught : (t : ℕ) (b : Bytes) → IsCaught (unpack_payload t b)
  unfolding unpack_payload unpack_log unpack_cmd calcsize is_protocol_error
  unpack_payload-IsCaught t b =
      IsCaught-if (t == MsgType.telemetry) _ _
        (unpack_as-IsCaught telemetry_fmt 48 telemetry_of b refl)
        (IsCaught-if (t == MsgType.hello) _ _ (unpack_as-IsCaught hello_fmt 40 hello_of b refl) (
          IsCaught-if (t == MsgType.heartbeat) _ _
            (unpack_as-IsCaught heartbeat_fmt 16 heartbeat_of b refl)
            (IsCaught-if (t == MsgType.log) _ _
              (IsCaught-require (leb 4 (length b)) bad_length _ refl (λ e. tt))
              (IsCaught-if (t == MsgType.config_set) _ _
                (unpack_as-IsCaught config_set_fmt 20 config_set_of b refl)
                (IsCaught-if (t == MsgType.config_ack) _ _
                  (unpack_as-IsCaught config_ack_fmt 8 config_ack_of b refl)
                  (IsCaught-if (t == MsgType.fw_update) _ _
                    (unpack_as-IsCaught fw_update_fmt 24 fw_update_of b refl)
                    (IsCaught-if (t == MsgType.fw_ack) _ _
                      (unpack_as-IsCaught fw_ack_fmt 20 fw_ack_of b refl)
                      (IsCaught-if (t == MsgType.fault_inject) _ _
                        (unpack_as-IsCaught fault_inject_fmt 12 fault_inject_of b refl)
                        (IsCaught-if (t == MsgType.fault_ack) _ _
                          (unpack_as-IsCaught fault_ack_fmt 4 fault_ack_of b refl)
                          (IsCaught-if (t == MsgType.cmd) _ _
                            (IsCaught-require (length b == 4) bad_length _ refl (λ e. tt))
                            tt))))))))))

  check_header-IsCaught : (v : Vals header_fmt) → IsCaught (check_header v)
  unfolding check_header is_protocol_error
  check_header-IsCaught (m, (ver, (mt, (dev, (seq, (ts, (fw, (plen, _)))))))) = ground arith

  pub unpack_header-IsCaught : (buf : Bytes) → IsCaught (unpack_header buf)
  unfolding unpack_header is_protocol_error
  unpack_header-IsCaught buf =
      IsCaught-require (leb header_len (length buf)) bad_length
        (unpack_from header_fmt buf >>= check_header) refl
        λ e.
          IsCaught->>= (unpack_from header_fmt buf) check_header
            (unpack_from-IsCaught header_fmt buf (unfold calcsize in ground (arith, e)))
            check_header-IsCaught

  check_header-bound :
      (v : Vals header_fmt) (h : Header) → check_header v ≡ ok h → h.payload_len ≤ max_payload
  unfolding check_header
  check_header-bound (m, (ver, (mt, (dev, (seq, (ts, (fw, (plen, _)))))))) h e = ground arith

  -- A header that was parsed announces a payload of at most 1024 bytes.
  pub unpack_header-bound :
      (buf : Bytes) (h : Header) → unpack_header buf ≡ ok h → h.payload_len ≤ max_payload
  unfolding unpack_header
  unpack_header-bound buf h e =
      let (lt, e1) =
        require-eq-ok (leb header_len (length buf)) bad_length
          (unpack_from header_fmt buf >>= check_header) e in
      let (v, _, e2) = >>=-eq-ok (unpack_from header_fmt buf) check_header e1 in
      check_header-bound v h e2

  decode_payload-IsCaught :
      (h : Header) (b : Bytes) (v : Vals (u32 ∷ [])) → IsCaught (decode_payload h b v)
  unfolding decode_payload is_protocol_error
  decode_payload-IsCaught h b (crc, u) =
      let front = take (total_len h - 4) b in
      let p = unpack_payload h.msg_type (drop header_len front) in
      let make : Payload → Result Frame = λ x. ok (record { header = h; payload = x; raw = b }) in
      IsCaught-require (checksum front == crc) bad_crc (p >>= make) refl λ _.
        IsCaught->>= p make (unpack_payload-IsCaught h.msg_type (drop header_len front)) (λ x. tt)

  decode_body-IsCaught : (h : Header) (buf : Bytes) → IsCaught (decode_body h buf)
  unfolding decode_body is_protocol_error
  decode_body-IsCaught h buf =
      let body = take (total_len h) buf in
      let crc = unpack_from (u32 ∷ []) (drop (total_len h - 4) body) in
      IsCaught-require (leb (total_len h) (length buf)) bad_length (crc >>= decode_payload h body)
        refl
        λ e.
          IsCaught->>= crc (decode_payload h body)
            (unpack_from-IsCaught (u32 ∷ []) (drop (total_len h - 4) body) (
              unfold calcsize in
              ground (
                arith,
                e,
                length-take (total_len h) buf,
                length-drop (total_len h - 4) (take (total_len h) buf),
              )))
            (decode_payload-IsCaught h body)

  -- Whatever the bytes, decoding returns a frame or raises a ProtocolError.
  pub decode-IsCaught : (buf : Bytes) → IsCaught (decode buf)
  unfolding decode
  decode-IsCaught buf =
      IsCaught->>= (unpack_header buf) (λ h. decode_body h buf) (unpack_header-IsCaught buf)
        (λ h. decode_body-IsCaught h buf)

-- What an accepted frame was checked for: it lies whole at the front of the bytes, its header was
-- parsed from them, and its last four bytes are the checksum of those before.
pub record IsAccepted ⦃fl : Floats⦄ (buf : Bytes) (fr : Frame) : Type 0 where
  pub header : unpack_header buf ≡ ok fr.header
  pub whole : total_len fr.header ≤ length buf
  pub raw : fr.raw ≡ take (total_len fr.header) buf
  pub crc :
      le_value (take 4 (drop (total_len fr.header - 4) fr.raw))
      ≡ checksum (take (total_len fr.header - 4) fr.raw)
  pub payload :
      unpack_payload fr.header.msg_type (drop header_len (take (total_len fr.header - 4) fr.raw))
      ≡ ok fr.payload

module _ ⦃fl : Floats⦄ where
  unpack_from-u32 :
      (b : Bytes) (n : ℕ) (u : Unit {0})
      → unpack_from (u32 ∷ []) b ≡ ok (n, u)
      → le_value (take 4 b) ≡ n
  unfolding unpack_from
  unpack_from-u32 b n u h = ground arith

  decode_body-ok :
      (h : Header) (buf : Bytes) (fr : Frame)
      → unpack_header buf ≡ ok h
      → decode_body h buf ≡ ok fr
      → IsAccepted buf fr
  unfolding decode_body decode_payload
  decode_body-ok h buf fr u e =
      let body = take (total_len h) buf in
      let front = take (total_len h - 4) body in
      let tail = drop (total_len h - 4) body in
      let crc = unpack_from (u32 ∷ []) tail in
      let made : Payload → Frame = λ x. record { header = h; payload = x; raw = body } in
      let (lt, e1) =
        require-eq-ok (leb (total_len h) (length buf)) bad_length (crc >>= decode_payload h body)
          e in
      let (c, pc, e2) = >>=-eq-ok crc (decode_payload h body) e1 in
      let p = unpack_payload h.msg_type (drop header_len front) in
      let (ceq, e3) = require-eq-ok (checksum front == c.0) bad_crc (p >>= λ x. ok (made x)) e2 in
      let (x, px, e4) = >>=-eq-ok p (λ x. ok (made x)) e3 in
      let accepted : IsAccepted buf (made x) = record {
        header = u;
        whole = ground (arith, lt);
        raw = refl;
        crc = unpack_from-u32 tail c.0 c.1 pc ∙ sym ((==_iff (checksum front) c.0).0 ceq);
        payload = px;
      } in
      subst (λ (f : Frame). IsAccepted buf f) (ok-injective e4) accepted

  -- A frame that decode returns has a valid header, is whole, carries the checksum of its own bytes,
  -- and its payload is what those bytes unpack to.
  pub decode-ok : (buf : Bytes) (fr : Frame) → decode buf ≡ ok fr → IsAccepted buf fr
  unfolding decode
  decode-ok buf fr e =
      let (h, u, e1) = >>=-eq-ok (unpack_header buf) (λ h. decode_body h buf) e in
      decode_body-ok h buf fr u e1
