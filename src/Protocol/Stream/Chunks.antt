-- ===== src/Protocol/Stream/Chunks.antt =====
-- A stream of whole frames yields those frames, however the bytes are cut into chunks.
use ecu_telemetry.Prelude.{
  ℕ, zero, suc, ◌-◌, ◌≤◌, ◌<◌, ◌≡◌, refl, sym, ap, ◌∙◌, true, false, inl, inr, Option, none, some,
  List, [], ◌∷◌, ◌++◌, arith, append_assoc, append-nil, ltb, Bool-cases, length, take,
  length-append, take-append, drop-append,
}
use ecu_telemetry.Python.Result.{ok}
use ecu_telemetry.Python.Floats.{Floats}
use ecu_telemetry.Python.Struct.{Bytes}
use ecu_telemetry.Protocol.Header.{unpack_header, header_len}
use ecu_telemetry.Python.Text.{Text}
use ecu_telemetry.Protocol.Text.{FitsText}
use ecu_telemetry.Protocol.Payload.Types.{Payload}
use ecu_telemetry.Protocol.Payload.Codec.{payload_type}
use ecu_telemetry.Protocol.Payload.RoundTrip.{FitsPayload}
use ecu_telemetry.Protocol.Frame.{Frame, encode, decode, total_len}
use ecu_telemetry.Protocol.Frame.RoundTrip.{arrived, decode-encode}
use ecu_telemetry.Protocol.Stream.{StreamDecoder, Fed, feed_loop, feed, stop, yield_frame}

-- A list that is cut inside or behind its first part.
cut_inside :
    (b rest buf future : Bytes)
    → b ++ rest ≡ buf ++ future
    → length b ≤ length buf
    → (r : Bytes) × (buf ≡ b ++ r) × (rest ≡ r ++ future)
cut_inside [] rest buf future e h = (buf, refl, e)
cut_inside (x ∷ b) rest [] future e h = absurd (omega arith)
cut_inside (x ∷ b) rest (y ∷ buf) future e h =
    let (r, p, q) = cut_inside b rest buf future (tail_eq e) (omega arith) in
    (r, ground (arith, head_eq e, p), q)
  where
    tail_eq : (x ∷ b) ++ rest ≡ (y ∷ buf) ++ future → b ++ rest ≡ buf ++ future
    tail_eq e = cc

    head_eq : (x ∷ b) ++ rest ≡ (y ∷ buf) ++ future → x ≡ y
    head_eq e = cc

take_same :
    (n : ℕ) (a as' b bs : Bytes)
    → a ++ as' ≡ b ++ bs
    → n ≤ length a
    → n ≤ length b
    → take n a ≡ take n b
take_same zero a as' b bs e ha hb = refl
take_same (suc n) [] as' b bs e ha hb = absurd (omega arith)
take_same (suc n) (x ∷ a) as' [] bs e ha hb = absurd (omega arith)
take_same (suc n) (x ∷ a) as' (y ∷ b) bs e ha hb = ground (arith, take_same n a as' b bs)

module _ ⦃fl : Floats⦄ where
  -- The bytes of one frame, and what decoding them gives.
  pub record IsFrame (b : Bytes) (fr : Frame) : Type 0 where
    pub header : unpack_header (take header_len b) ≡ ok fr.header
    pub whole : length b ≡ total_len fr.header
    pub decoded : decode b ≡ ok fr

  -- What encode returns is the bytes of one frame.
  pub encode-IsFrame :
      (g : ℕ) (dev : Text) (seq ts fw : ℕ) (p : Payload)
      → payload_type g p < 256
      → FitsText 12 dev
      → FitsPayload g p
      → (b : Bytes) × (encode (payload_type g p) dev seq ts fw p ≡ ok b)
        × IsFrame b (record {
          header = arrived (payload_type g p) dev seq ts fw (length b - 40);
          payload = p;
          raw = b;
        })
  encode-IsFrame g dev seq ts fw p ht hd hp =
      let (b, e, lo, hi, u, d) = decode-encode g dev seq ts fw p ht hd hp in
      (b, e, record { header = u; whole = omega arith; decoded = rw append-nil at (d []) })

  -- A stream: its frames with their bytes, and those bytes in a row.
  abbrev pub Sent : Type 0
  Sent = List (Bytes × Frame)

  abbrev pub AllFrames : Sent → Type 0
  AllFrames [] = Unit {0}
  AllFrames ((b, fr) ∷ s) = IsFrame b fr × AllFrames s

  abbrev pub wire : Sent → Bytes
  wire [] = []
  wire ((b, fr) ∷ s) = b ++ wire s

  abbrev pub frames_of : Sent → List Frame
  frames_of [] = []
  frames_of ((b, fr) ∷ s) = fr ∷ frames_of s

  -- The buffer ends inside the first frame that is left.
  abbrev Inside : Bytes → Sent → Type 0
  Inside buf [] = buf ≡ []
  Inside buf ((b, fr) ∷ s) = length buf < length b

  one_frame :
      (fuel : ℕ) (b rest : Bytes) (fr : Frame) (bad : ℕ)
      → IsFrame b fr
      → feed_loop (suc fuel) (b ++ rest) bad ≡ yield_frame fr (feed_loop fuel rest bad)
  unfolding feed_loop
  one_frame fuel b rest fr bad f =
      let same : take header_len (b ++ rest) ≡ take header_len b =
        take_same header_len (b ++ rest) [] b rest (append-nil (b ++ rest))
          (omega (arith, f.whole, length-append b rest)) (omega (arith, f.whole)) in
      let long : ltb (length (b ++ rest)) header_len ≡ false =
        ground (arith, f.whole, length-append b rest) in
      let whole : ltb (length (b ++ rest)) (total_len fr.header) ≡ false =
        ground (arith, f.whole, length-append b rest) in
      rw (
        long,
        same,
        f.header,
        whole,
        take-append (total_len fr.header) b rest f.whole,
        f.decoded,
        drop-append (total_len fr.header) b rest f.whole,
      )

  wait :
      (fuel : ℕ) (b buf rest future : Bytes) (fr : Frame) (bad : ℕ)
      → IsFrame b fr
      → b ++ rest ≡ buf ++ future
      → length buf < length b
      → feed_loop (suc fuel) buf bad ≡ stop buf bad
  unfolding feed_loop
  wait fuel b buf rest future fr bad f e h = elim (Bool-cases (ltb (length buf) header_len)) [
    | inl short ↦ rw short
    | inr long ↦
        let same : take header_len buf ≡ take header_len b =
          take_same header_len buf future b rest (sym e) (ground (arith, long))
            (omega (arith, f.whole)) in
        let part : ltb (length buf) (total_len fr.header) ≡ true = ground (arith, f.whole) in
        rw (long, same, f.header, part)
  ]

  -- One call of feed on a prefix of a stream: it yields whole frames, and what it keeps is the start
  -- of the first frame that is left.
  pub record Advance (s : Sent) (future : Bytes) (bad : ℕ) (r : Option Fed) : Type 0 where
    pub frames : List Frame
    pub buf : Bytes
    pub left : Sent
    pub result :
        r
        ≡ some
            (record { frames = frames; decoder = record { buf = buf; bad = bad }; raised = none })
    pub split : frames_of s ≡ frames ++ frames_of left
    pub remaining : wire left ≡ buf ++ future
    pub inside : Inside buf left
    pub valid : AllFrames left

  feed_stream :
      (s : Sent) (fuel : ℕ) (buf future : Bytes) (bad : ℕ)
      → AllFrames s
      → wire s ≡ buf ++ future
      → length buf < fuel
      → Advance s future bad (feed_loop fuel buf bad)
  feed_stream s zero buf future bad a e h = absurd (omega arith)
  feed_stream [] (suc fuel) [] future bad a e h = record {
    frames = [];
    buf = [];
    left = [];
    result = unfold feed_loop in refl;
    split = refl;
    remaining = e;
    inside = refl;
    valid = tt;
  }
  feed_stream [] (suc fuel) (x ∷ buf) future bad a e h = absurd (omega (arith, ap length e))
  feed_stream ((b, fr) ∷ s) (suc fuel) buf future bad (f, a) e h =
      elim (Bool-cases (ltb (length buf) (length b))) [
        | inl part ↦ record {
          frames = [];
          buf = buf;
          left = (b, fr) ∷ s;
          result = wait fuel b buf (wire s) future fr bad f e (ground (arith, part));
          split = refl;
          remaining = e;
          inside = ground (arith, part);
          valid = (f, a);
        }
        | inr whole ↦
            let (r, p, q) = cut_inside b (wire s) buf future e (ground (arith, whole)) in
            let less : length r < fuel = omega (arith, ap length p, length-append b r, f.whole) in
            let step = feed_stream s fuel r future bad a q less in
            record {
              frames = fr ∷ step.frames;
              buf = step.buf;
              left = step.left;
              result =
                  ap (λ (t : Bytes). feed_loop (suc fuel) t bad) p
                  ∙ one_frame fuel b r fr bad f
                  ∙ ap (yield_frame fr) step.result;
              split = ap (λ (t : List Frame). fr ∷ t) step.split;
              remaining = step.remaining;
              inside = step.inside;
              valid = step.valid;
            }
      ]

  abbrev Run : Type 0
  Run = Option (List Frame × StreamDecoder)

  abbrev prepend : List Frame → Run → Run
  prepend fs none = none
  prepend fs (some (frames, d)) = some (fs ++ frames, d)

  abbrev go_on : Option Fed → (StreamDecoder → Run) → Run
  go_on none next = none
  go_on (some fed) next = prepend fed.frames (next fed.decoder)

  -- The reader's loop: one call of feed for each chunk that arrives.
  pub feed_all : StreamDecoder → List Bytes → Option (List Frame × StreamDecoder)
  feed_all d [] = some ([], d)
  feed_all d (c ∷ cs) = go_on (feed d c) (λ d'. feed_all d' cs)

  abbrev pub joined : List Bytes → Bytes
  joined [] = []
  joined (c ∷ cs) = c ++ joined cs

  feed_all-left :
      (chunks : List Bytes) (s : Sent) (buf : Bytes) (bad : ℕ)
      → AllFrames s
      → wire s ≡ buf ++ joined chunks
      → Inside buf s
      → feed_all (record { buf = buf; bad = bad }) chunks
        ≡ some (frames_of s, record { buf = []; bad = bad })
  unfolding feed_all
  feed_all-left [] [] buf bad a e i = rw i
  feed_all-left [] ((b, fr) ∷ s) buf bad (f, a) e i =
      absurd (omega (arith, ap length e, length-append b (wire s), length-append buf []))
  feed_all-left (c ∷ cs) s buf bad a e i =
      let step =
        feed_stream s (suc (length (buf ++ c))) (buf ++ c) (joined cs) bad a
          (e ∙ sym (append_assoc buf c (joined cs))) (omega arith) in
      let rest = feed_all-left cs step.left step.buf bad step.valid step.remaining step.inside in
      let now : feed (record { buf = buf; bad = bad }) c
          ≡ some (record {
            frames = step.frames;
            decoder = record { buf = step.buf; bad = bad };
            raised = none;
          }) =
        unfold feed in step.result in
      rw (now, rest, step.split)

  -- Whole frames in a row, cut into any chunks: feeding the chunks yields the frames in order,
  -- counts no bad frame and leaves an empty buffer.
  pub feed_all-wire :
      (s : Sent) (chunks : List Bytes)
      → AllFrames s
      → joined chunks ≡ wire s
      → feed_all (record { buf = []; bad = 0 }) chunks
        ≡ some (frames_of s, record { buf = []; bad = 0 })
  feed_all-wire [] chunks a e = feed_all-left chunks [] [] 0 a (sym e) refl
  feed_all-wire ((b, fr) ∷ s) chunks (f, a) e =
      feed_all-left chunks ((b, fr) ∷ s) [] 0 (f, a) (sym e) (omega (arith, f.whole))
