-- ===== src/Ingest/Stats.antt =====
-- class DeviceStats of backend/app/ingest.py: the loss count over sequence numbers.
pub mod Gaps
use ecu_telemetry.Prelude.{
  ℕ, ◌+◌, ◌-◌, ◌%◌, ◌^◌, Bool, true, false, ◌||◌, Option, none, some, List, [], ◌∷◌, ◌++◌, ltb,
  ◌==◌, if◌then◌else◌, length, drop,
}
use ecu_telemetry.Python.Floats.{Floats}
use ecu_telemetry.Bus.{Time}

-- The length of the rolling window.
abbrev pub loss_window : ℕ
loss_window = 200

-- A gap above this is a device's restart.
abbrev pub restart_gap : ℕ
restart_gap = 10_000

-- deque.append with maxlen
unfoldable pub push : ℕ × ℕ → List (ℕ × ℕ) → List (ℕ × ℕ)
push x w = let w' = w ++ (x ∷ []) in drop (length w' - loss_window) w'

unfoldable pub total : (ℕ × ℕ → ℕ) → List (ℕ × ℕ) → ℕ
total f [] = 0
total f (x ∷ w) = f x + total f w

module _ ⦃fl : Floats⦄ where
  open fl use {Float}

  pub record DeviceStats : Type 0 where
    pub frames_rx : ℕ
    pub bad_crc : ℕ
    pub seq_gaps : ℕ
    pub reconnects : ℕ
    pub last_seen : Option Time
    pub last_seq : Option ℕ
    pub tcp_connected : Bool
    pub online : Bool
    pub window : List (ℕ × ℕ)
    pub tx_seq : ℕ
    pub transit_ms : Option Float

  abbrev pub new_stats : DeviceStats
  new_stats = record {
    frames_rx = 0;
    bad_crc = 0;
    seq_gaps = 0;
    reconnects = 0;
    last_seen = none;
    last_seq = none;
    tcp_connected = false;
    online = false;
    window = [];
    tx_seq = 0;
    transit_ms = none;
  }

  abbrev at_least_zero : Float → Float
  at_least_zero x = if fl.lt (fl.of_ℕ 0) x then x else fl.of_ℕ 0

  unfoldable pub loss_pct : DeviceStats → Float
  loss_pct s =
      let expected = total (λ p. p.1) s.window in
      let received = total (λ p. p.0) s.window in
      if expected == 0
      then fl.of_ℕ 0
      else fl.round
          (at_least_zero (
            fl.mul (fl.lit 1000 1)
              (fl.sub (fl.of_ℕ 1) (fl.div (fl.of_ℕ received) (fl.of_ℕ expected)))))
          2

  -- (seq - last) & 0xFFFFFFFF
  abbrev pub delta_of : ℕ → ℕ → ℕ
  delta_of seq last = (seq + (2 ^ 32 - last % 2 ^ 32)) % 2 ^ 32

  abbrev pub gap_of : ℕ → ℕ
  gap_of delta = let gap = delta - 1 in if ltb restart_gap gap then 0 else gap

  -- A frame that is newer by delta.
  unfoldable pub advance : ℕ → ℕ → DeviceStats → DeviceStats
  unfolding push
  advance delta seq s = if (delta == 0) || ltb 0x7FFFFFFF delta then s else record s {
    seq_gaps = s.seq_gaps + gap_of delta;
    window = push (1, 1 + gap_of delta) s.window;
    last_seq = some seq;
  }

  note_after : Option ℕ → ℕ → DeviceStats → DeviceStats
  unfolding advance push
  note_after none seq s = record s { window = push (1, 1) s.window; last_seq = some seq }
  note_after (some last) seq s = advance (delta_of seq last) seq s

  unfoldable pub note_seq : ℕ → DeviceStats → DeviceStats
  unfolding note_after
  note_seq seq s = note_after s.last_seq seq s
