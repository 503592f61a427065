-- ===== src/Bus/Queues.antt =====
-- The queues of the subscribers: bounded, in order, newest event kept; and the telemetry rate.
use ecu_telemetry.Prelude.{
  ℕ, zero, suc, ◌+◌, ◌-◌, ◌/◌, ◌≤◌, ◌<◌, ◌≡◌, refl, sym, ap, ◌∙◌, true, false, List, [], ◌∷◌, ◌++◌,
  map, arith, append_assoc, append-nil, ltb, leb, Bool-cases, inl, inr, All, length, drop,
  length-append, length-drop,
}
use ecu_telemetry.Prelude.Tables.{lookup-insert}
use ecu_telemetry.Python.Text.{Text, ===_refl}
use ecu_telemetry.Bus.{EventBus, Time, second, offer, publish, publish_telemetry}

module _ {E : Type 0} where
  -- Every subscriber's queue is within the bound.
  abbrev pub IsBounded : EventBus E → Type 0
  IsBounded b = All (λ s. length (s.1) ≤ b.maxsize) b.subs

  length-offer : (n : ℕ) (e : E) (q : List E) → 0 < n → length q ≤ n → length (offer n e q) ≤ n
  unfolding offer
  length-offer n e [] h l = ground (arith, length-append {A = E} [] (e ∷ []))
  length-offer n e (x ∷ q) h l =
      ground (arith, length-append (x ∷ q) (e ∷ []), length-append q (e ∷ []))

  offer-All :
      (n : ℕ) (e : E) (qs : List (ℕ × List E))
      → 0 < n
      → All (λ (s : ℕ × List E). length (s.1) ≤ n) qs
      → All
          (λ (s : ℕ × List E). length (s.1) ≤ n)
          (map (λ (s : ℕ × List E). (s.0, offer n e s.1)) qs)
  offer-All n e [] h a = tt
  offer-All n e ((k, q) ∷ qs) h (l, a) = (length-offer n e q h l, offer-All n e qs h a)

  -- Publishing keeps every queue within a positive bound.
  pub publish-IsBounded :
      (e : E) (b : EventBus E) → 0 < b.maxsize → IsBounded b → IsBounded (publish e b)
  unfolding publish
  publish-IsBounded e b h a = offer-All b.maxsize e b.subs h a

  -- What a queue that saw the events `es` in a row holds: its items and the events, less the oldest.
  abbrev pub offers : ℕ → List E → List E → List E
  offers n [] q = q
  offers n (e ∷ es) q = offers n es (offer n e q)

  same_drop : {a b : ℕ} (xs : List E) → a ≡ b → drop a xs ≡ drop b xs
  same_drop xs h = ap (λ (n : ℕ). drop n xs) h

  drop-nil : (n : ℕ) → drop {A = E} n [] ≡ []
  drop-nil zero = refl
  drop-nil (suc n) = refl

  pub drop-drop : (k m : ℕ) (xs : List E) → drop m (drop k xs) ≡ drop (k + m) xs
  drop-drop zero m xs = same_drop xs (omega arith)
  drop-drop (suc k) m [] = drop-nil m ∙ sym (drop-nil (suc k + m))
  drop-drop (suc k) m (x ∷ xs) =
      drop-drop k m xs ∙ same_drop {a = suc (k + m)} {b = suc k + m} (x ∷ xs) (omega arith)

  pub drop-append_le : (k : ℕ) (a b : List E) → k ≤ length a → drop k (a ++ b) ≡ drop k a ++ b
  drop-append_le zero a b h = refl
  drop-append_le (suc k) [] b h = absurd (omega arith)
  drop-append_le (suc k) (x ∷ a) b h = drop-append_le k a b (omega arith)

  none_dropped :
      (n : ℕ) (e : E) (q : List E)
      → 0 < n
      → length q < n
      → drop (length q + 1 - n) (q ++ (e ∷ [])) ≡ q ++ (e ∷ [])
  none_dropped n e q h l =
      let zero_left : length q + 1 - n ≡ 0 = omega arith in
      ap (λ (m : ℕ). drop m (q ++ (e ∷ []))) zero_left

  offer-drop :
      (n : ℕ) (e : E) (q : List E)
      → 0 < n
      → length q ≤ n
      → offer n e q ≡ drop (length q + 1 - n) (q ++ (e ∷ []))
  unfolding offer
  offer-drop n e [] h l = ground (arith, none_dropped n e [] h (omega arith))
  offer-drop n e (x ∷ q) h l = elim (Bool-cases (leb n (suc (length q)))) [
    | inr room ↦
        let more : ltb 0 n ≡ true = ground arith in
        rw (more, room) (sym (none_dropped n e (x ∷ q) h (ground (arith, room))))
    | inl is_full ↦
        let more : ltb 0 n ≡ true = ground arith in
        let left : leb n (length q) ≡ false = ground (arith, is_full) in
        let one : suc (length q) + 1 - n ≡ 1 = ground (arith, is_full) in
        rw (more, is_full, left, one)
  ]

  -- A queue within the bound that sees some events holds the latest of its items and those events,
  -- as many as the bound, in their order.
  pub offers-drop :
      (n : ℕ) (es q : List E)
      → 0 < n
      → length q ≤ n
      → offers n es q ≡ drop (length (q ++ es) - n) (q ++ es)
  offers-drop n [] q h l = sym (
      ap (λ (t : List E). drop (length t - n) t) (append-nil q) ∙ same_drop {b = 0} q (omega arith))
  offers-drop n (e ∷ es) q h l =
      let k = length q + 1 - n in
      let qe = q ++ (e ∷ []) in
      let all = q ++ (e ∷ es) in
      let len : length (offer n e q) ≤ n = length-offer n e q h l in
      let same : offer n e q ++ es ≡ drop k all =
        ap (λ (t : List E). t ++ es) (offer-drop n e q h l)
        ∙ sym (drop-append_le k qe es (omega (arith, length-append q (e ∷ []))))
        ∙ ap (drop k) (append_assoc q (e ∷ []) es) in
      let later = offers-drop n es (offer n e q) h len in
      later
      ∙ ap (λ (t : List E). drop (length t - n) t) same
      ∙ drop-drop k (length (drop k all) - n) all
      ∙ same_drop all (omega (arith, length-drop k all, length-append q (e ∷ es)))

  -- Two telemetry events of one device that are published in a row are half a second apart at least.
  pub publish_telemetry_spaced :
      (dev : Text) (e e' : E) (t t' : Time) (b : EventBus E)
      → (publish_telemetry dev e t b).1 ≡ true
      → (publish_telemetry dev e' t' (publish_telemetry dev e t b).0).1 ≡ true
      → t + second / 2 ≤ t'
  unfolding publish_telemetry publish
  publish_telemetry_spaced dev e e' t t' b p q =
      ground (arith, lookup-insert dev dev t b.last_tel, ===_refl dev)
