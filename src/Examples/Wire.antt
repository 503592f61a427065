-- ===== src/Examples/Wire.antt =====
-- Examples of the wire format and of the stores.
use ecu_telemetry.Prelude.{
  ℕ, true, ◌*◌, ◌/◌, ◌+◌, ◌-◌, ◌≤◌, ◌≡◌, refl, sym, ap, ◌∙◌, some, List, [], ◌∷◌, ◌++◌, arith,
  append_assoc, take-append-drop, length, take, drop,
}
use ecu_telemetry.Prelude.Tables.{lookup, insert}
use ecu_telemetry.Python.Result.{ok}
use ecu_telemetry.Python.Struct.{Bytes}
use ecu_telemetry.Python.Text.{text, ◌===◌}
use ecu_telemetry.Bus.{EventBus, publish, publish_telemetry, second}
use ecu_telemetry.Bus.Queues.{offers, offers-drop, publish_telemetry_spaced}
use ecu_telemetry.Protocol.Flags.{flags_to_names, names_to_flags, names_to_flags-flags_to_names}
use ecu_telemetry.Protocol.Firmware.{fw_encode, fw_decode, fw_encode-fw_decode}
use ecu_telemetry.Protocol.Text.{FitsText, cstr, pad, cstr-pad_cut}
use ecu_telemetry.Protocol.Header.{unpack_header, header_len, max_payload}
use ecu_telemetry.Protocol.Payload.Codec.{payload_type}
use ecu_telemetry.Protocol.Payload.RoundTrip.{RoundTrip, unpack_payload-pack_payload}
use ecu_telemetry.Protocol.Frame.{Frame, encode, decode}
use ecu_telemetry.Protocol.Frame.RoundTrip.{arrived, decode-encode}
use ecu_telemetry.Protocol.Frame.Reject.{IsCaught, IsAccepted, decode-IsCaught, decode-ok}
use ecu_telemetry.Protocol.Stream.{feed}
use ecu_telemetry.Protocol.Stream.Progress.{Ends, feed-Ends}
use ecu_telemetry.Protocol.Stream.Chunks.{IsFrame, encode-IsFrame, feed_all, feed_all-wire}
use ecu_telemetry.Db.Devices.{
  upsert_device, get_device, set_fields, new_device, get_device-upsert_device,
}
use ecu_telemetry.Db.Config.{config_row, ack_config}
use ecu_telemetry.Db.Types.{DeviceConfig, Database}
use ecu_telemetry.Db.Config.Versions.{versions_of, ack_config-versions_of}
use ecu_telemetry.Examples.{two, device, beat, empty}

device_fits : FitsText 12 device
device_fits = (
  (((λ e. omega (arith, e)), omega arith), (((λ e. omega (arith, e)), omega arith), tt)),
  omega arith,
)

-- The frame of a heartbeat as the device e1 sends it.
abbrev frame_of : Bytes → Frame
frame_of b = record { header = arrived 3 device 5 6 7 (length b - 40); payload = beat; raw = b }

decode-encode_example :
    (b : Bytes) × (encode 3 device 5 6 7 beat ≡ ok b)
    × (header_len + 4 ≤ length b)
    × (length b ≤ header_len + max_payload + 4)
    × (unpack_header (take header_len b) ≡ ok (arrived 3 device 5 6 7 (length b - 40)))
    × ((rest : Bytes) → decode (b ++ rest) ≡ ok (frame_of b))
unfolding payload_type
decode-encode_example =
    decode-encode 0 device 5 6 7 beat (omega arith) device_fits
      (omega arith, omega arith, omega arith, omega arith)

-- The frame, to be taken apart below.
abbrev sent : (b : Bytes) × (encode 3 device 5 6 7 beat ≡ ok b) × IsFrame b (frame_of b)
unfolding payload_type
sent =
    encode-IsFrame 0 device 5 6 7 beat (omega arith) device_fits
      (omega arith, omega arith, omega arith, omega arith)

decode-ok_example : IsAccepted (sent.0) (frame_of (sent.0))
decode-ok_example = decode-ok (sent.0) (frame_of (sent.0)) (sent.2).decoded

abbrev halves : List Bytes
halves = take 10 (sent.0) ∷ drop 10 (sent.0) ∷ []

joined_halves : take 10 (sent.0) ++ (drop 10 (sent.0) ++ []) ≡ sent.0 ++ []
joined_halves =
    sym (append_assoc (take 10 (sent.0)) (drop 10 (sent.0)) [])
    ∙ ap (λ (t : Bytes). t ++ []) (take-append-drop 10 (sent.0))

feed_all-wire_example :
    feed_all (record { buf = []; bad = 0 }) halves
    ≡ some (frame_of (sent.0) ∷ [], record { buf = []; bad = 0 })
feed_all-wire_example =
    feed_all-wire ((sent.0, frame_of (sent.0)) ∷ []) halves (sent.2, tt) joined_halves

cstr-pad_cut_example : cstr (pad device 2) ≡ take 1 device
cstr-pad_cut_example = cstr-pad_cut device 2 (device_fits.0) (omega arith)

fw_encode-fw_decode_example : fw_encode (fw_decode 0x010203) ≡ ok 0x010203
fw_encode-fw_decode_example = fw_encode-fw_decode 0x010203 (omega arith)

names_to_flags-flags_to_names_example : names_to_flags (flags_to_names 0x41) ≡ ok 0x41
names_to_flags-flags_to_names_example = names_to_flags-flags_to_names 0x41 (omega arith)

unpack_payload-pack_payload_example : RoundTrip 0 beat
unpack_payload-pack_payload_example =
    unpack_payload-pack_payload 0 beat (omega arith, omega arith, omega arith, omega arith)

feed-Ends_example : Ends (feed (record { buf = 1 ∷ []; bad = 0 }) (2 ∷ 3 ∷ []))
feed-Ends_example = feed-Ends (record { buf = 1 ∷ []; bad = 0 }) (2 ∷ 3 ∷ [])

decode-IsCaught_example : IsCaught (decode (1 ∷ 2 ∷ []))
decode-IsCaught_example = decode-IsCaught (1 ∷ 2 ∷ [])

offers-drop_example : offers {E = ℕ} 2 (1 ∷ 2 ∷ []) (7 ∷ []) ≡ 1 ∷ 2 ∷ []
offers-drop_example = offers-drop 2 (1 ∷ 2 ∷ []) (7 ∷ []) (omega arith) (omega arith)

abbrev quiet : EventBus ℕ
quiet = record { subs = []; next_sub = 0; maxsize = 10; last_tel = []; published = 0 }

publish_telemetry_spaced_example : 9 * second + second / 2 ≤ 10 * second
unfolding publish_telemetry publish lookup insert ◌===◌
publish_telemetry_spaced_example =
    publish_telemetry_spaced device 1 2 (9 * second) (10 * second) quiet refl refl

get_device-upsert_device_example :
    get_device (upsert_device device (λ d. d) 3 empty) device
    ≡ some (set_fields (λ d. d) 3 (new_device device 3))
unfolding get_device ◌===◌
get_device-upsert_device_example =
    get_device-upsert_device device device (λ d. d) 3 empty (λ d. refl)

abbrev kept_config : DeviceConfig
kept_config = config_row device 3 10 1 true true true 2

abbrev configured : Database
configured = record empty { configs = kept_config ∷ [] }

ack_config-versions_of_example :
    versions_of device 3 (ack_config device 3 (text "applied") 3 configured).configs
    ≡ record kept_config { ack_status = text "applied"; acked_at = some 3 } ∷ []
unfolding ack_config ◌===◌
ack_config-versions_of_example =
    ack_config-versions_of device device 3 3 (text "applied") 3 configured
