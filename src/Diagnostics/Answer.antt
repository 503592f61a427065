-- ===== src/Diagnostics/Answer.antt =====
-- What heuristic_diagnosis of backend/app/diagnostics.py answers with.
use mathlib.Core.Path.{subst}
use mathlib.Core.List.{Permᴰ}
use ecu_telemetry.Prelude.{
  ℕ, ◌<◌, ◌≡◌, ◌≢◌, refl, ◌∙◌, ◌||◌, Bool, true, false, not, List, [], ◌∷◌, ◌++◌, map, ◌==◌, ap,
  ◌&&◌, arith, if◌then◌else◌,
}
use ecu_telemetry.Python.Floats.{Floats}
use ecu_telemetry.Python.Text.{Text, ◌===◌}
use ecu_telemetry.Python.Sets.{
  has, distinct, sort_with, sort_with-Perm, sort_with-IsOrdered, IsOrdered, IsDistinct,
  distinct-IsDistinct, has-distinct, has-append,
}
use ecu_telemetry.Bus.{Time}
use ecu_telemetry.Protocol.Flags.{flags_to_names, below_all, below_all-holds}
use ecu_telemetry.Db.Types.{Cause}
use ecu_telemetry.Diagnostics.Context.{Context}
use ecu_telemetry.Diagnostics.Blocks.{Found, faults_in, flagged}
use ecu_telemetry.Diagnostics.Heuristic.{
  found, explained, nominal, heuristic_diagnosis, diagnosis_of, ranked, scaled, sum_of, total_of,
  more_likely,
}
use ecu_telemetry.Diagnostics.Explained.{is_known, any_in, known_flags, is_empty, found_lem}

any_in-grows : (xs ys zs : List Text) → any_in xs ys ≡ true → any_in xs (distinct (ys ++ zs)) ≡ true
any_in-grows [] ys zs h = h
any_in-grows (x ∷ xs) ys zs h =
    rw (has-distinct x (ys ++ zs), has-append x ys zs) (ground (arith, any_in-grows xs ys zs))

flag_table : below_all (λ f. (f == 0) || any_in known_flags (flags_to_names f)) 256 ≡ true
unfolding below_all flags_to_names has ◌===◌
flag_table = refl

module _ ⦃fl : Floats⦄ where
  open fl use {Float}

  diagnosis_of-known :
      (ctx : Context) (f : Found) (cs : List Cause) (at : Text) (known : Bool)
      → is_empty cs ≡ not known
      → diagnosis_of ctx f cs at ≡ (if known then explained ctx f at else nominal ctx at)
  unfolding diagnosis_of is_empty
  diagnosis_of-known ctx f [] at true h = ground arith
  diagnosis_of-known ctx f [] at false h = refl
  diagnosis_of-known ctx f (c ∷ cs) at true h = refl
  diagnosis_of-known ctx f (c ∷ cs) at false h = ground arith

  -- The diagnosis is the nominal one just where none of the known alert rules is open, none of the
  -- known flags is active, at most ten percent of the frames are lost, the device has reconnected at
  -- most three times, its last firmware job was neither rejected nor failed, and the status of its
  -- configuration is none of rejected, queued, pending and sent.
  pub heuristic_diagnosis-known :
      (iso : Time → Text) (ctx : Context) (at : Text)
      → heuristic_diagnosis iso ctx at
        ≡ (if is_known ctx then explained ctx (found iso ctx) at else nominal ctx at)
  unfolding heuristic_diagnosis
  heuristic_diagnosis-known iso ctx at =
      diagnosis_of-known ctx (found iso ctx) (found iso ctx).causes at (is_known ctx)
        (found_lem iso ctx)

  -- The sum of some floats after a first one, from the left.
  abbrev pub sum_from : Float → List Float → Float
  sum_from x [] = x
  sum_from x (y ∷ ys) = sum_from (fl.add x y) ys

  abbrev pub one_if_zero : Float → Float
  one_if_zero x = if fl.le x (fl.of_ℕ 0) && fl.le (fl.of_ℕ 0) x then fl.of_ℕ 1 else x

  -- A cause with its share of a total, rounded to two digits.
  abbrev pub share_of : Float → Cause → Cause
  share_of t c = record c { likelihood = fl.round (fl.div c.likelihood t) 2 }

  abbrev pub shares : List Cause → List Cause
  shares cs =
      map (share_of (one_if_zero (sum_from (fl.of_ℕ 0) (map (λ (c : Cause). c.likelihood) cs)))) cs

  -- No cause is less likely than the one after it.
  abbrev pub IsRanked : List Cause → Type 0
  IsRanked cs = IsOrdered (λ (a b : Cause). not (fl.lt a.likelihood b.likelihood)) cs

  sum_of-from :
      (x : Float) (cs : List Cause)
      → sum_of x cs ≡ sum_from x (map (λ (c : Cause). c.likelihood) cs)
  sum_of-from x [] = refl
  sum_of-from x (c ∷ cs) = sum_of-from (fl.add x c.likelihood) cs

  total_of-sum :
      (cs : List Cause)
      → total_of cs ≡ one_if_zero (sum_from (fl.of_ℕ 0) (map (λ (c : Cause). c.likelihood) cs))
  unfolding total_of
  total_of-sum cs = ap one_if_zero (sum_of-from (fl.of_ℕ 0) cs)

  -- Where something known is wrong, the probable causes are those that the blocks found, each with its
  -- likelihood divided by the sum of all, or by 1 where that is 0, and rounded to two digits; and none
  -- of them is less likely than the next, as long as no two floats are each below the other.
  pub heuristic_diagnosis-causes :
      (iso : Time → Text) (ctx : Context) (at : Text)
      → is_known ctx ≡ true
      → ((x y : Float) → fl.lt x y ≡ true → fl.lt y x ≡ false)
      → Permᴰ (heuristic_diagnosis iso ctx at).probable_causes (shares (found iso ctx).causes)
        × IsRanked (heuristic_diagnosis iso ctx at).probable_causes
  unfolding explained ranked
  heuristic_diagnosis-causes iso ctx at h apart =
      let cs = (found iso ctx).causes in
      let whole = ap (λ (t : Float). map (scaled t) cs) (total_of-sum cs) in
      let scaled_cs = map (scaled (total_of cs)) cs in
      rw (heuristic_diagnosis-known iso ctx at, h)
        (
          subst (λ (l : List Cause). Permᴰ (sort_with more_likely scaled_cs) l) whole
              (sort_with-Perm more_likely scaled_cs),
          sort_with-IsOrdered more_likely scaled_cs
              (λ a b e. ground (arith, e, apart a.likelihood b.likelihood)),
        )

  -- Where something known is wrong, an action is recommended just if a block adds it, and no action
  -- twice.
  pub heuristic_diagnosis-actions :
      (iso : Time → Text) (ctx : Context) (at action : Text)
      → is_known ctx ≡ true
      → (has action (heuristic_diagnosis iso ctx at).recommended_actions
          ≡ has action (found iso ctx).actions)
        × IsDistinct (heuristic_diagnosis iso ctx at).recommended_actions
  unfolding explained
  heuristic_diagnosis-actions iso ctx at action h =
      rw (heuristic_diagnosis-known iso ctx at, h)
        (has-distinct action (found iso ctx).actions, distinct-IsDistinct (found iso ctx).actions)

  -- A device that has any fault flag set is never called nominal: whatever else the context holds, the
  -- diagnosis is one with causes.
  pub heuristic_diagnosis-flags :
      (iso : Time → Text) (ctx : Context) (at : Text) (flags : ℕ)
      → flags < 256
      → flags ≢ 0
      → ctx.active_faults ≡ flags_to_names flags
      → heuristic_diagnosis iso ctx at ≡ explained ctx (found iso ctx) at
  unfolding is_known faults_in
  heuristic_diagnosis-flags iso ctx at flags small some_flag e =
      let named : any_in known_flags (flags_to_names flags) ≡ true =
        ground (arith, below_all-holds _ 256 flags small flag_table) in
      let active : any_in known_flags (faults_in ctx) ≡ true =
        rw e (any_in-grows known_flags (flags_to_names flags) (flagged ctx.open_alerts) named) in
      let known : is_known ctx ≡ true = rw active (ground arith) in
      heuristic_diagnosis-known iso ctx at ∙ rw known refl
