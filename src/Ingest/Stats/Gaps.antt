-- ===== src/Ingest/Stats/Gaps.antt =====
-- What the loss count says of the frames that arrived.
use ecu_telemetry.Prelude.{
  ℕ, ◌+◌, ◌-◌, ◌%◌, ◌^◌, ◌≤◌, ◌<◌, ◌≡◌, refl, ap, ◌∙◌, ◌⊎◌, inl, inr, ◌||◌, some, List, [], ◌∷◌,
  ◌++◌, All, ltb, ◌==◌, length, drop, length-drop, length-append, append_assoc, append-nil, sym,
  map, arith, Bool-cases,
}
use ecu_telemetry.Python.Floats.{Floats}
use ecu_telemetry.Ingest.Stats.{DeviceStats, push, delta_of, advance, note_after, note_seq}
use ecu_telemetry.Bus.Queues.{drop-drop, drop-append_le}

module _ ⦃fl : Floats⦄ where
  -- The difference of two sequence numbers that are k apart, wrap-around included.
  delta-ahead : (l k : ℕ) → l < 2 ^ 32 → k < 2 ^ 32 → delta_of ((l + k) % 2 ^ 32) l ≡ k
  delta-ahead l k hl hk = omega arith

  delta-behind :
      (l k : ℕ)
      → l < 2 ^ 32
      → k ≤ 2 ^ 31
      → (delta_of ((l + (2 ^ 32 - k)) % 2 ^ 32) l ≡ 0)
        ⊎ (0x7FFFFFFF < delta_of ((l + (2 ^ 32 - k)) % 2 ^ 32) l)
  delta-behind l k hl hk = elim (Bool-cases (k == 0)) [
    | inl e ↦ inl (ground arith)
    | inr e ↦ inr (ground arith)
  ]

  note_seq-some :
      (l seq : ℕ) (s : DeviceStats)
      → s.last_seq ≡ some l
      → note_seq seq s ≡ advance (delta_of seq l) seq s
  unfolding note_seq note_after
  note_seq-some l seq s e = ap (λ o. note_after o seq s) e

  advance-stale :
      (delta seq : ℕ) (s : DeviceStats)
      → (delta ≡ 0) ⊎ (0x7FFFFFFF < delta)
      → advance delta seq s ≡ s
  unfolding advance
  advance-stale delta seq s h = elim (Bool-cases ((delta == 0) || ltb 0x7FFFFFFF delta)) [
    | inl e ↦ rw e refl
    | inr e ↦ absurd (ground (arith, h, e))
  ]

  advance-ahead :
      (delta seq : ℕ) (s : DeviceStats)
      → 0 < delta
      → delta ≤ 10_001
      → ((advance delta seq s).seq_gaps + 1 ≡ s.seq_gaps + delta)
        × ((advance delta seq s).last_seq ≡ some seq)
        × ((advance delta seq s).window ≡ push (1, delta) s.window)
  unfolding advance
  advance-ahead delta seq s h0 hk = ground arith

  -- A duplicate, or a frame that is at most half of the number space behind the last one, changes
  -- nothing.
  pub note_seq-stale :
      (l k : ℕ) (s : DeviceStats)
      → s.last_seq ≡ some l
      → l < 2 ^ 32
      → k ≤ 2 ^ 31
      → note_seq ((l + (2 ^ 32 - k)) % 2 ^ 32) s ≡ s
  note_seq-stale l k s e hl hk =
      note_seq-some l _ s e ∙ advance-stale _ _ s (delta-behind l k hl hk)

  -- A frame that is k ahead of the last one, over the wrap-around too, counts k - 1 lost frames,
  -- becomes the last one and enters the window as one of k frames, for k from 1 to 10001.
  pub note_seq-ahead :
      (l k : ℕ) (s : DeviceStats)
      → s.last_seq ≡ some l
      → l < 2 ^ 32
      → 0 < k
      → k ≤ 10_001
      → ((note_seq ((l + k) % 2 ^ 32) s).seq_gaps + 1 ≡ s.seq_gaps + k)
        × ((note_seq ((l + k) % 2 ^ 32) s).last_seq ≡ some ((l + k) % 2 ^ 32))
        × ((note_seq ((l + k) % 2 ^ 32) s).window ≡ push (1, k) s.window)
  note_seq-ahead l k s e hl h0 hk =
      rw (note_seq-some l ((l + k) % 2 ^ 32) s e, delta-ahead l k hl (omega arith))
        (advance-ahead k ((l + k) % 2 ^ 32) s h0 hk)

  -- The statistics after frames whose numbers are the given steps apart.
  unfoldable pub after : ℕ → List ℕ → DeviceStats → DeviceStats
  after l [] s = s
  after l (k ∷ ks) s = after ((l + k) % 2 ^ 32) ks (note_seq ((l + k) % 2 ^ 32) s)

  unfoldable pub sum : List ℕ → ℕ
  sum [] = 0
  sum (k ∷ ks) = k + sum ks

  -- Over any run of frames in order, of which each is 1 to 10001 ahead of the one before, starting
  -- from a last number below 2 ^ 32, the frames newly counted as lost and the frames received add up
  -- to the frames sent.
  pub after-seq_gaps :
      (l : ℕ) (ks : List ℕ) (s : DeviceStats)
      → s.last_seq ≡ some l
      → l < 2 ^ 32
      → All (λ k. (0 < k) × (k ≤ 10_001)) ks
      → (after l ks s).seq_gaps + length ks ≡ s.seq_gaps + sum ks
  unfolding after sum
  after-seq_gaps l [] s e hl h = refl
  after-seq_gaps l (k ∷ ks) s e hl ((h0, hk), h) =
      let (p, q, r) = note_seq-ahead l k s e hl h0 hk in
      omega (
        arith,
        p,
        after-seq_gaps ((l + k) % 2 ^ 32) ks (note_seq ((l + k) % 2 ^ 32) s) q (omega arith) h,
      )

  -- The entries of a window for frames whose numbers are the given steps apart.
  abbrev pub expected_of : List ℕ → List (ℕ × ℕ)
  expected_of ks = map (λ (k : ℕ). (1, k)) ks

  -- The last 200 entries.
  abbrev pub latest_200 : List (ℕ × ℕ) → List (ℕ × ℕ)
  latest_200 w = drop (length w - 200) w

  latest_again : (w v : List (ℕ × ℕ)) → latest_200 (latest_200 w ++ v) ≡ latest_200 (w ++ v)
  latest_again w v =
      let k = length w - 200 in
      let joined : drop k w ++ v ≡ drop k (w ++ v) = sym (drop-append_le k w v (omega arith)) in
      let n = length (drop k (w ++ v)) - 200 in
      ap latest_200 joined
      ∙ drop-drop k n (w ++ v)
      ∙ ap (λ (m : ℕ). drop m (w ++ v)) {x = k + n} {y = length (w ++ v) - 200}
          (omega (arith, length-drop k (w ++ v), length-append w v))

  -- Over any run of frames in order, of which each is 1 to 10001 ahead of the one before, a rolling
  -- window of at most 200 entries, from a last number below 2 ^ 32, ends up with the last 200 of its
  -- entries and, for each frame, an entry of one frame received and as many expected as the step to it.
  pub after-window :
      (l : ℕ) (ks : List ℕ) (s : DeviceStats)
      → s.last_seq ≡ some l
      → l < 2 ^ 32
      → length s.window ≤ 200
      → All (λ k. (0 < k) × (k ≤ 10_001)) ks
      → (after l ks s).window ≡ latest_200 (s.window ++ expected_of ks)
  unfolding after push
  after-window l [] s e hl short h = sym (
      ap latest_200 (append-nil s.window)
      ∙ ap (λ (m : ℕ). drop m s.window) {x = length s.window - 200} {y = 0} (omega (arith, short)))
  after-window l (k ∷ ks) s e hl short ((h0, hk), h) =
      let (p, q, r) = note_seq-ahead l k s e hl h0 hk in
      let entered = s.window ++ ((1, k) ∷ []) in
      after-window ((l + k) % 2 ^ 32) ks (note_seq ((l + k) % 2 ^ 32) s) q (omega arith)
        (rw r (omega (arith, length-drop (length entered - 200) entered))) h
      ∙ ap (λ (w : List (ℕ × ℕ)). latest_200 (w ++ expected_of ks)) r
      ∙ latest_again entered (expected_of ks)
      ∙ ap latest_200 (append_assoc s.window ((1, k) ∷ []) (expected_of ks))
