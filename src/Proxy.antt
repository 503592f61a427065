-- ===== src/Proxy.antt =====
-- sim/lossy_proxy.py: the impairments, the counters and the fate of each datagram. What the random
-- generator answers is a parameter.
pub mod Balance
use ecu_telemetry.Prelude.{
  ℕ, zero, suc, ◌+◌, Bool, true, false, not, ◌&&◌, ◌||◌, Option, none, some, List, [], ◌∷◌, ◌++◌,
  if◌then◌else◌,
}
use ecu_telemetry.Python.Floats.{Floats}
use ecu_telemetry.Python.Text.{Text, text, ◌===◌}

module _ ⦃fl : Floats⦄ where
  open fl use {Float}

  pub record Impairments : Type 0 where
    pub drop : Float
    pub delay_ms : Float
    pub jitter_ms : Float
    pub reorder : Float
    pub dup : Float

  -- setattr by name; none is the ValueError of an unknown name.
  set_tunable : Text → Float → Impairments → Option Impairments
  set_tunable k v imp =
      if k === text "drop"
      then some (record imp { drop = v })
      else if k === text "delay_ms"
      then some (record imp { delay_ms = v })
      else if k === text "jitter_ms"
      then some (record imp { jitter_ms = v })
      else if k === text "reorder"
      then some (record imp { reorder = v })
      else if k === text "dup"
      then some (record imp { dup = v })
      else none

  abbrev is_rate : Text → Bool
  is_rate k = (k === text "drop") || ((k === text "reorder") || (k === text "dup"))

  abbrev in_unit : Float → Bool
  in_unit v = fl.le (fl.of_ℕ 0) v && fl.le v (fl.of_ℕ 1)

  -- One name's value, with the tests on it.
  unfoldable pub set_one : Text → Float → Impairments → Option Impairments
  unfolding set_tunable
  set_one k v imp =
      if is_rate k && not (in_unit v)
      then none
      else if fl.lt v (fl.of_ℕ 0)
      then none
      else set_tunable k v imp

  -- update: the impairments when it ends, and whether it ended without a ValueError. The values
  -- before a bad one stay set.
  unfoldable pub update : List (Text × Float) → Impairments → Impairments × Bool
  unfolding set_one
  update [] imp = (imp, true)
  update ((k, v) ∷ values) imp = elim (set_one k v imp) [
    | none ↦ (imp, false)
    | some imp' ↦ update values imp'
  ]

  pub record Stats : Type 0 where
    pub received : ℕ
    pub forwarded : ℕ
    pub dropped : ℕ
    pub duplicated : ℕ
    pub reordered : ℕ
    pub returned : ℕ

  -- What rng answers for one copy: uniform(0, jitter_ms), and random() for reorder.
  pub record Draw : Type 0 where
    pub jitter : Float
    pub reorder : Float

  abbrev fmax : Float → Float → Float
  fmax a b = if fl.lt a b then b else a

  abbrev non_zero : Float → Bool
  non_zero x = fl.lt x (fl.of_ℕ 0) || fl.lt (fl.of_ℕ 0) x

  -- The delay of a copy, and whether it was reordered.
  unfoldable pub copy_delay : Impairments → Draw → Float × Bool
  copy_delay imp r =
      let delay = fl.add imp.delay_ms r.jitter in
      let two = fl.of_ℕ 2 in
      let extra = fmax (fmax (fl.mul two imp.delay_ms) (fl.mul two imp.jitter_ms)) (fl.lit 300 1) in
      if non_zero imp.reorder && fl.lt r.reorder imp.reorder
      then (fl.add delay extra, true)
      else (delay, false)

  -- The copies of a datagram: their delays in milliseconds, and the counters.
  unfoldable pub send_copies : Impairments → List Draw → Stats → List Float × Stats
  unfolding copy_delay
  send_copies imp [] s = ([], s)
  send_copies imp (r ∷ rs) s =
      let (delay, late) = copy_delay imp r in
      let s' : Stats = if late then record s { reordered = s.reordered + 1 } else s in
      let (delays, s'') = send_copies imp rs s' in (delay ∷ delays, s'')

  -- datagram_received, with rng's answers: for the drop, for the duplicate, and for the two copies.
  -- The result is the delays of the copies that will be sent.
  unfoldable pub datagram_received :
      Impairments → Float → Float → Draw → Draw → Stats → List Float × Stats
  unfolding send_copies
  datagram_received imp r_drop r_dup one two s =
      let s1 : Stats = record s { received = s.received + 1 } in
      if fl.lt r_drop imp.drop
      then ([], record s1 { dropped = s1.dropped + 1 })
      else if non_zero imp.dup && fl.lt r_dup imp.dup
      then send_copies imp (one ∷ two ∷ []) (record s1 { duplicated = s1.duplicated + 1 })
      else send_copies imp (one ∷ []) s1

  -- _send once its upstream socket is there; sendto's answer is a parameter.
  unfoldable forward : Bool → Stats → Stats
  forward sent s = if sent then record s { forwarded = s.forwarded + 1 } else s

  -- return_to_client, with and without a transport.
  unfoldable return_to_client : Bool → Stats → Stats
  return_to_client connected s = if connected then record s { returned = s.returned + 1 } else s
