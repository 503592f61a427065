-- ===== src/Engine/Ewma.antt =====
-- The z-score test of one metric: class Ewma and the anomaly loop's judgement in backend/app/anomaly.py.
use ecu_telemetry.Prelude.{
  ℕ, ◌+◌, ◌≡◌, refl, inl, inr, Bool, true, false, not, ◌&&◌, Option, none, some, List, [], ◌∷◌, ◌∙◌,
  ap, leb, ◌==◌, if◌then◌else◌, Bool-cases, sym, length, arith,
}
use ecu_telemetry.Python.Floats.{Floats}
use ecu_telemetry.Bus.{Time}
use ecu_telemetry.World.Types.{AnomalyRule, Ewma, Gate}

module _ ⦃fl : Floats⦄ where
  open fl use {Float}

  abbrev zero_f : Float
  zero_f = fl.of_ℕ 0

  -- max(a, b)
  abbrev pub fmax : Float → Float → Float
  fmax a b = if fl.lt a b then b else a

  abbrev pub new_ewma : Ewma
  new_ewma = record { mean = zero_f; var = zero_f; n = 0; streak = 0; since = none }

  -- The z-score, which the callers drop, and the new state.
  unfoldable pub update : Float → Float → Bool → Ewma → Float × Ewma
  update x alpha learn_var e =
      if e.n == 0
      then (zero_f, record e { mean = x; var = zero_f; n = 1 })
      else let std = fl.sqrt e.var in
        let z = if fl.lt zero_f std then fl.div (fl.abs (fl.sub x e.mean)) std else zero_f in
        let d = fl.sub x e.mean in
        let var' =
          if learn_var
          then fl.mul (fl.sub (fl.of_ℕ 1) alpha) (fl.add e.var (fl.mul (fl.mul alpha d) d))
          else e.var in
        (z, record e { mean = fl.add e.mean (fl.mul alpha d); var = var'; n = e.n + 1 })

  -- `e.since or now`
  abbrev pub since_or : Option Time → Time → Time
  since_or none now = now
  since_or (some t) now = if t == 0 then now else t

  abbrev began : Option Time → Time → Time
  began none now = now
  began (some t) now = t

  unfoldable pub z_score : AnomalyRule → Float → Ewma → Float
  z_score an x e =
      let warm = leb an.warmup e.n in
      let root = fl.sqrt e.var in
      let std = if warm then fmax root an.min_std else root in
      if warm && fl.lt zero_f std then fl.div (fl.abs (fl.sub x e.mean)) std else zero_f

  -- `held`: the metric is gated, and the operating point moves.
  unfoldable pub is_hot : AnomalyRule → Bool → Float → Ewma → Bool
  unfolding z_score
  is_hot an held x e = leb an.warmup e.n && (fl.lt an.z (z_score an x e) && not held)

  -- The streak and the time at which it began.
  unfoldable pub count : Bool → Time → Ewma → Ewma
  count true now e = record e { streak = e.streak + 1; since = some (began e.since now) }
  count false now e = record e { streak = 0; since = none }

  unfoldable pub judge : AnomalyRule → Bool → Float → Time → Ewma → Ewma
  judge an held x now e =
      let hot = is_hot an held x e in
      let alpha = if hot then fl.mul an.alpha (fl.lit 1 1) else an.alpha in
      count hot now ((update x alpha (not hot) e).1)

  -- The condition that opens the alert.
  unfoldable pub is_sustained : AnomalyRule → Time → Ewma → Bool
  is_sustained an now e =
      leb an.sustain e.streak && leb (since_or e.since now + an.sustain_time) now

  -- The gate's test and its own average.
  unfoldable pub is_moving : Gate → ℕ → Float → Ewma → Bool
  is_moving gate warmup gx g =
      if leb warmup g.n
      then fl.lt (fmax (fl.mul gate.frac (fl.abs g.mean)) gate.abs) (fl.abs (fl.sub gx g.mean))
      else false

  -- One sample as the loop meets it: whether the gate holds it back, its value and its time.
  pub record Judged : Type 0 where
    pub held : Bool
    pub value : Float
    pub at : Time

  -- The state after a metric's samples, the newest first.
  unfoldable pub state_after : AnomalyRule → List Judged → Ewma
  state_after an [] = new_ewma
  state_after an (s ∷ ss) = judge an s.held s.value s.at (state_after an ss)

  -- The newest samples, as far back as they were hot.
  unfoldable pub hot_run : AnomalyRule → List Judged → List Judged
  hot_run an [] = []
  hot_run an (s ∷ ss) =
      let rest = hot_run an ss in
      if is_hot an s.held s.value (state_after an ss) then s ∷ rest else []

  -- The time of the oldest of some samples, the newest first.
  unfoldable pub oldest : List Judged → Option Time
  oldest [] = none
  oldest (s ∷ []) = some s.at
  oldest (s ∷ r ∷ ss) = oldest (r ∷ ss)

  update-streak :
      (x alpha : Float) (b : Bool) (e : Ewma)
      → ((update x alpha b e).1.streak ≡ e.streak) × ((update x alpha b e).1.since ≡ e.since)
  unfolding update
  update-streak x alpha b e = elim (Bool-cases (e.n == 0)) [
    | inl h ↦ rw h (refl, refl)
    | inr h ↦ rw h (refl, refl)
  ]

  oldest-began : (s : Judged) (ss : List Judged) → oldest (s ∷ ss) ≡ some (began (oldest ss) s.at)
  unfolding oldest
  oldest-began s [] = refl
  oldest-began s (r ∷ ss) =
      let e = oldest-began r ss in e ∙ sym (ap (λ (o : Option Time). some (began o s.at)) e)

  abbrev more_run : Bool → Judged → List Judged → List Judged
  more_run hot s run = if hot then s ∷ run else []

  count-streak :
      (hot : Bool) (s : Judged) (run : List Judged) (e : Ewma)
      → e.streak ≡ length run
      → e.since ≡ oldest run
      → ((count hot s.at e).streak ≡ length (more_run hot s run))
        × ((count hot s.at e).since ≡ oldest (more_run hot s run))
  unfolding count
  count-streak true s run e p q =
      (omega (arith, p), ap (λ (o : Option Time). some (began o s.at)) q ∙ sym (oldest-began s run))
  count-streak false s run e p q = (refl, unfold oldest in refl)

  -- After any sequence of samples, the streak is the number of newest samples in a row that were
  -- hot, and since is the time of the oldest of them.
  pub streak-hot_run :
      (an : AnomalyRule) (ss : List Judged)
      → ((state_after an ss).streak ≡ length (hot_run an ss))
        × ((state_after an ss).since ≡ oldest (hot_run an ss))
  unfolding state_after hot_run judge oldest
  streak-hot_run an [] = (refl, refl)
  streak-hot_run an (s ∷ ss) =
      let (p, q) = streak-hot_run an ss in
      let hot = is_hot an s.held s.value (state_after an ss) in
      let alpha = if hot then fl.mul an.alpha (fl.lit 1 1) else an.alpha in
      let (u, v) = update-streak s.value alpha (not hot) (state_after an ss) in
      count-streak hot s (hot_run an ss) _ (u ∙ p) (v ∙ q)

  -- Take the newest samples of a metric, as far back as each was hot when it came. The alert's
  -- condition holds exactly when they are at least `sustain` and the oldest of them came at least
  -- `sustain_time` ago; where there is none, or its time is 0, it counts as having come now.
  pub is_sustained-hot_run :
      (an : AnomalyRule) (now : Time) (ss : List Judged)
      → is_sustained an now (state_after an ss) ≡ (
          leb an.sustain (length (hot_run an ss))
          && leb (since_or (oldest (hot_run an ss)) now + an.sustain_time) now)
  unfolding is_sustained
  is_sustained-hot_run an now ss = let (p, q) = streak-hot_run an ss in rw (p, q)
