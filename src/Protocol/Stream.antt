-- ===== src/Protocol/Stream.antt =====
-- class StreamDecoder of backend/app/protocol.py: frames out of a TCP byte stream.
pub mod Progress
pub mod Chunks
use ecu_telemetry.Prelude.{
  ℕ, zero, suc, ◌+◌, Bool, true, false, ◌&&◌, Option, none, some, List, [], ◌∷◌, ◌++◌, ltb, ◌==◌,
  if◌then◌else◌, length, take, drop,
}
use ecu_telemetry.Python.Result.{Result, ok, err, Error, is_protocol_error}
use ecu_telemetry.Python.Floats.{Floats}
use ecu_telemetry.Python.Struct.{Bytes}
use ecu_telemetry.Protocol.Header.{Header, unpack_header, header_len}
use ecu_telemetry.Protocol.Frame.{Frame, decode, total_len}

-- buf.find(b"TE")
unfoldable pub find_te : Bytes → Option ℕ
find_te [] = none
find_te (a ∷ []) = none
find_te (a ∷ b ∷ bs) =
    let later : Option ℕ = elim (find_te (b ∷ bs)) [ none ↦ none | some i ↦ some (suc i) ] in
    if a == b'T' && b == b'E' then some 0 else later

pub record StreamDecoder : Type 0 where
  pub buf : Bytes
  pub bad : ℕ

module _ ⦃fl : Floats⦄ where
  -- What one call of feed has yielded, the decoder that it leaves, and an exception that it lets pass.
  pub record Fed : Type 0 where
    pub frames : List Frame
    pub decoder : StreamDecoder
    pub raised : Option Error

  abbrev pub stop : Bytes → ℕ → Option Fed
  stop buf bad =
      some (record { frames = []; decoder = record { buf = buf; bad = bad }; raised = none })

  abbrev pub raise : Error → Bytes → ℕ → Option Fed
  raise e buf bad =
      some (record { frames = []; decoder = record { buf = buf; bad = bad }; raised = some e })

  abbrev pub yield_frame : Frame → Option Fed → Option Fed
  yield_frame fr none = none
  yield_frame fr (some fed) = some (record fed { frames = fr ∷ fed.frames })

  -- The loop of feed, on fuel; `none` is the fuel's end.
  unfoldable pub feed_loop : ℕ → Bytes → ℕ → Option Fed
  feed_loop zero buf bad = none
  feed_loop (suc fuel) buf bad =
      if ltb (length buf) header_len
      then stop buf bad
      else elim (unpack_header (take header_len buf)) [
        | err e ↦ elim (is_protocol_error e) [
          | false ↦ raise e buf bad
          | true ↦ elim (find_te (drop 1 buf)) [
            | none ↦ stop [] (bad + 1)
            | some idx ↦ feed_loop fuel (drop idx (drop 1 buf)) (bad + 1)
          ]
        ]
        | ok hdr ↦ elim (ltb (length buf) (total_len hdr)) [
          | true ↦ stop buf bad
          | false ↦ elim (decode (take (total_len hdr) buf)) [
            | ok fr ↦ yield_frame fr (feed_loop fuel (drop (total_len hdr) buf) bad)
            | err e ↦ elim (is_protocol_error e) [
              | false ↦ raise e (drop (total_len hdr) buf) bad
              | true ↦ feed_loop fuel (drop (total_len hdr) buf) (bad + 1)
            ]
          ]
        ]
      ]

  -- Every round drops a byte at least, so fuel above the buffer's length is enough.
  unfoldable pub feed : StreamDecoder → Bytes → Option Fed
  feed d chunk = feed_loop (suc (length (d.buf ++ chunk))) (d.buf ++ chunk) d.bad
