-- ===== src/Proxy/Balance.antt =====
-- The counters of the proxy agree with the copies that it sends.
use ecu_telemetry.Prelude.{
  ℕ, ◌+◌, ◌≡◌, refl, ◌∙◌, Bool, true, false, ◌&&◌, List, [], ◌∷◌, arith, length, if◌then◌else◌,
}
use ecu_telemetry.Python.Floats.{Floats}
use ecu_telemetry.Proxy.{
  Impairments, Stats, Draw, copy_delay, send_copies, datagram_received, non_zero,
}

module _ ⦃fl : Floats⦄ where
  open fl use {Float}

  -- What the counters say of the copies.
  abbrev pub Copies : List Float × Stats → ℕ → Stats → Type 0
  Copies (delays, s') n s =
      (length delays ≡ n)
      × (s'.received ≡ s.received)
      × (s'.dropped ≡ s.dropped)
      × (s'.duplicated ≡ s.duplicated)

  late-keeps :
      (b : Bool) (s : Stats)
      → ((if b then record s { reordered = s.reordered + 1 } else s).received ≡ s.received)
        × ((if b then record s { reordered = s.reordered + 1 } else s).dropped ≡ s.dropped)
        × ((if b then record s { reordered = s.reordered + 1 } else s).duplicated ≡ s.duplicated)
  late-keeps true s = (refl, refl, refl)
  late-keeps false s = (refl, refl, refl)

  send_copies-Copies :
      (imp : Impairments) (rs : List Draw) (s : Stats) → Copies (send_copies imp rs s) (length rs) s
  unfolding send_copies
  send_copies-Copies imp [] s = (refl, refl, refl, refl)
  send_copies-Copies imp (r ∷ rs) s =
      let late = (copy_delay imp r).1 in
      let (a, b, c) = late-keeps late s in
      let (n, x, y, z) =
        send_copies-Copies imp rs (if late then record s { reordered = s.reordered + 1 } else s) in
      (omega (arith, n), x ∙ a, y ∙ b, z ∙ c)

  -- The balance of the counters, and of the copies that a list holds.
  abbrev pub Balanced : List Float × Stats → Stats → Type 0
  Balanced (delays, s') s =
      (s'.received ≡ s.received + 1)
      × (length delays + s'.dropped + s.duplicated ≡ s.dropped + s'.duplicated + 1)

  copies-Balanced :
      (imp : Impairments) (rs : List Draw) (s t : Stats)
      → t.received ≡ s.received + 1
      → t.dropped ≡ s.dropped
      → length rs + s.duplicated ≡ t.duplicated + 1
      → Balanced (send_copies imp rs t) s
  copies-Balanced imp rs s t p q r =
      let (n, x, y, z) = send_copies-Copies imp rs t in (x ∙ p, omega (arith, n, y, z, q, r))

  choose-Balanced :
      (b c : Bool) (x y z : List Float × Stats) (s : Stats)
      → Balanced x s
      → Balanced y s
      → Balanced z s
      → Balanced (if b then x else if c then y else z) s
  choose-Balanced true c x y z s p q r = p
  choose-Balanced false true x y z s p q r = q
  choose-Balanced false false x y z s p q r = r

  -- Whatever the impairments and the random answers, each datagram is counted as received once, and
  -- the copies to send are one, less one if it is counted as dropped, plus one if it is counted
  -- as duplicated.
  pub datagram_received-Balanced :
      (imp : Impairments) (r_drop r_dup : Float) (one two : Draw) (s : Stats)
      → Balanced (datagram_received imp r_drop r_dup one two s) s
  unfolding datagram_received
  datagram_received-Balanced imp r_drop r_dup one two s =
      choose-Balanced (fl.lt r_drop imp.drop) (non_zero imp.dup && fl.lt r_dup imp.dup) _ _ _ s
        (refl, omega arith) (copies-Balanced imp (one ∷ two ∷ []) s _ refl refl (omega arith))
        (copies-Balanced imp (one ∷ []) s _ refl refl (omega arith))
