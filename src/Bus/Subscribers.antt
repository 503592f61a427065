-- ===== src/Bus/Subscribers.antt =====
-- Who gets what: subscribe, unsubscribe and publish of backend/app/bus.py, queue by queue.
use ecu_telemetry.Prelude.{
  ℕ, ◌≡◌, refl, inl, inr, Bool-cases, Option, none, some, List, [], ◌∷◌, map, arith, ◌==◌,
  if◌then◌else◌,
}
use ecu_telemetry.Bus.{
  EventBus, subscribe, unsubscribe, discard, publish, offer, queue_in, queue_of,
}

module _ {E : Type 0} where
  abbrev offered : ℕ → E → Option (List E) → Option (List E)
  offered n e none = none
  offered n e (some items) = some (offer n e items)

  publish_in :
      (q n : ℕ) (e : E) (subs : List (ℕ × List E))
      → queue_in q (map (λ s. (s.0, offer n e s.1)) subs) ≡ offered n e (queue_in q subs)
  publish_in q n e [] = refl
  publish_in q n e ((k, items) ∷ subs) = elim (Bool-cases (k == q)) [
    | inl h ↦ rw h refl
    | inr h ↦ rw h (publish_in q n e subs)
  ]

  discard_in :
      (q r : ℕ) (subs : List (ℕ × List E))
      → queue_in r (discard q subs) ≡ (if q == r then none else queue_in r subs)
  discard_in q r [] = ground arith
  discard_in q r ((k, items) ∷ subs) = ground (arith, discard_in q r subs)

  -- Publishing offers the event to every subscriber's queue and makes none.
  pub publish-queue_of :
      (q : ℕ) (e : E) (b : EventBus E)
      → queue_of q (publish e b) ≡ offered b.maxsize e (queue_of q b)
  unfolding queue_of publish
  publish-queue_of q e b = publish_in q b.maxsize e b.subs

  -- Unsubscribing takes that queue away and no other.
  pub unsubscribe-queue_of :
      (q r : ℕ) (b : EventBus E)
      → queue_of r (unsubscribe q b) ≡ (if q == r then none else queue_of r b)
  unfolding queue_of unsubscribe
  unsubscribe-queue_of q r b = discard_in q r b.subs

  -- A new subscriber starts with an empty queue, and every other queue stays.
  pub subscribe-queue_of :
      (r : ℕ) (b : EventBus E)
      → queue_of r (subscribe b).0 ≡ (if (subscribe b).1 == r then some [] else queue_of r b)
  unfolding queue_of subscribe
  subscribe-queue_of r b = refl
