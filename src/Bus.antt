-- ===== src/Bus.antt =====
-- class EventBus of backend/app/bus.py.
pub mod Queues
pub mod Subscribers
use ecu_telemetry.Prelude.{
  ℕ, ◌+◌, ◌-◌, ◌/◌, Bool, true, false, not, ◌&&◌, Option, none, some, List, [], ◌∷◌, ◌++◌, map, ltb,
  leb, ◌==◌, if◌then◌else◌, length, drop,
}
use ecu_telemetry.Prelude.Tables.{Dict, lookup, insert}
use ecu_telemetry.Python.Text.{Text}

-- A clock reading in microseconds.
abbrev pub Time : Type 0
Time = ℕ

abbrev pub second : Time
second = 1_000_000

-- asyncio.Queue: full at `maxsize` items, never if that is 0.
abbrev pub full : ℕ → ℕ → Bool
full maxsize n = ltb 0 maxsize && leb maxsize n

-- A subscriber's queue is known by a number, in place of its identity.
pub record EventBus (E : Type 0) : Type 0 where
  pub subs : List (ℕ × List E)
  pub next_sub : ℕ
  pub maxsize : ℕ
  pub last_tel : Dict Time
  pub published : ℕ

abbrev last_of : Option Time → Time
last_of none = 0
last_of (some t) = t

module _ {E : Type 0} where
  unfoldable pub subscribe : EventBus E → EventBus E × ℕ
  subscribe b =
      (record b { subs = (b.next_sub, []) ∷ b.subs; next_sub = b.next_sub + 1 }, b.next_sub)

  -- set.discard
  abbrev discard : ℕ → List (ℕ × List E) → List (ℕ × List E)
  discard q [] = []
  discard q ((k, items) ∷ subs) =
      let rest = discard q subs in if k == q then rest else (k, items) ∷ rest

  unfoldable pub unsubscribe : ℕ → EventBus E → EventBus E
  unsubscribe q b = record b { subs = discard q b.subs }

  abbrev pub queue_in : ℕ → List (ℕ × List E) → Option (List E)
  queue_in q [] = none
  queue_in q ((k, items) ∷ subs) = if k == q then some items else queue_in q subs

  -- What waits for a subscriber.
  unfoldable pub queue_of : ℕ → EventBus E → Option (List E)
  queue_of q b = queue_in q b.subs

  -- put_nowait, and on QueueFull get_nowait before a second put_nowait.
  unfoldable pub offer : ℕ → E → List E → List E
  offer maxsize e q =
      if not (full maxsize (length q))
      then q ++ (e ∷ [])
      else if full maxsize (length (drop 1 q))
      then drop 1 q
      else drop 1 q ++ (e ∷ [])

  unfoldable pub publish : E → EventBus E → EventBus E
  publish e b = record b {
    published = b.published + 1;
    subs = map (λ s. (s.0, offer b.maxsize e s.1)) b.subs;
  }

  -- `max_hz` is its default, 2.0.
  unfoldable pub publish_telemetry : Text → E → Time → EventBus E → EventBus E × Bool
  publish_telemetry device_id e now b =
      let last = last_of (lookup device_id b.last_tel) in
      if ltb (now - last) (second / 2)
      then (b, false)
      else (publish e (record b { last_tel = insert device_id now b.last_tel }), true)
