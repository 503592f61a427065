-- ===== src/Protocol/Stream/Progress.antt =====
-- feed ends on every input, raises nothing, and leaves less than one whole frame.
use ecu_telemetry.Prelude.{
  ℕ, zero, suc, ◌+◌, ◌<◌, ◌≡◌, refl, true, false, ◌⊎◌, inl, inr, Option, none, some, ◌++◌, arith,
  ltb, Bool-cases, Option-cases, length, take, drop, length-drop,
}
use ecu_telemetry.Python.Result.{Result, ok, err, Error, is_protocol_error}
use ecu_telemetry.Python.Floats.{Floats}
use ecu_telemetry.Python.Struct.{Bytes}
use ecu_telemetry.Protocol.Header.{unpack_header, header_len, max_payload}
use ecu_telemetry.Protocol.Frame.{Frame, decode, total_len}
use ecu_telemetry.Protocol.Frame.Reject.{
  IsCaught, unpack_header-bound, unpack_header-IsCaught, decode-IsCaught,
}
use ecu_telemetry.Protocol.Stream.{StreamDecoder, Fed, feed_loop, feed, find_te, yield_frame}

Result-cases {ℓ} :
    {A : Type ℓ} (r : Result A) → ((a : A) × (r ≡ ok a)) ⊎ ((e : Error) × (r ≡ err e))
Result-cases (ok a) = inl (a, refl)
Result-cases (err e) = inr (e, refl)

caught_error {ℓ} :
    {A : Type ℓ} (r : Result A) (e : Error) → IsCaught r → r ≡ err e → is_protocol_error e ≡ true
caught_error (ok a) e h p = cc
caught_error (err x) e h p = ground (arith, h)

abbrev pub longest_frame : ℕ
longest_frame = header_len + max_payload + 4

module _ ⦃fl : Floats⦄ where
  -- The call has ended with no exception, and less than the longest frame waits for more bytes.
  abbrev pub Ends : Option Fed → Type 0
  Ends none = ⊥
  Ends (some fed) = (fed.raised ≡ none) × (length fed.decoder.buf < longest_frame)

  Ends-yield : (fr : Frame) (r : Option Fed) → Ends r → Ends (yield_frame fr r)
  Ends-yield fr none e = e
  Ends-yield fr (some fed) e = e

  shorter :
      (m : ℕ) (buf : Bytes) (fuel : ℕ)
      → ltb (length buf) header_len ≡ false
      → 0 < m
      → length buf < suc fuel
      → length (drop m buf) < fuel
  shorter m buf fuel long pos h = ground (arith, length-drop m buf)

  feed_loop-Ends :
      (fuel : ℕ) (buf : Bytes) (bad : ℕ) → length buf < fuel → Ends (feed_loop fuel buf bad)
  unfolding feed_loop
  feed_loop-Ends zero buf bad h = absurd (omega arith)
  feed_loop-Ends (suc fuel) buf bad h = elim (Bool-cases (ltb (length buf) header_len)) [
    | inl short ↦ rw short (refl, ground (arith, short))
    | inr long ↦ rw long (elim (Result-cases (unpack_header (take header_len buf))) [
      | inr (e, p) ↦
          rw (p, caught_error _ e (unpack_header-IsCaught (take header_len buf)) p)
            (elim (Option-cases (find_te (drop 1 buf))) [
              | inl gone ↦ rw gone (refl, omega arith)
              | inr (i, found) ↦ rw found (
                  feed_loop-Ends fuel (drop i (drop 1 buf)) (bad + 1) (
                    omega
                      (arith, shorter 1 buf fuel long (omega arith) h, length-drop i (drop 1 buf))))
            ])
      | inl (hdr, p) ↦ rw p (elim (Bool-cases (ltb (length buf) (total_len hdr))) [
        | inl part ↦
            rw part (refl, ground (arith, part, unpack_header-bound (take header_len buf) hdr p))
        | inr whole ↦ rw whole (
            let rest = shorter (total_len hdr) buf fuel long (omega arith) h in
            elim (Result-cases (decode (take (total_len hdr) buf))) [
              | inl (fr, q) ↦
                  rw q (Ends-yield fr _ (feed_loop-Ends fuel (drop (total_len hdr) buf) bad rest))
              | inr (e, q) ↦
                  rw (q, caught_error _ e (decode-IsCaught (take (total_len hdr) buf)) q)
                    (feed_loop-Ends fuel (drop (total_len hdr) buf) (bad + 1) rest)
            ])
      ])
    ])
  ]

  -- Whatever bytes arrive, feed ends, lets no exception pass, and keeps fewer bytes than the longest
  -- frame has.
  pub feed-Ends : (d : StreamDecoder) (chunk : Bytes) → Ends (feed d chunk)
  unfolding feed
  feed-Ends d chunk =
      feed_loop-Ends (suc (length (d.buf ++ chunk))) (d.buf ++ chunk) d.bad (omega arith)
