-- ===== src/Prelude/Sorting.antt =====
-- ORDER BY a number: a stable sort, and what it keeps.
use ecu_telemetry.Prelude.Tests.{leb, if◌then◌else◌, Bool-cases}
use ecu_telemetry.Prelude.Lists.{drop, All}
use Prim.Native.Nat.{ℕ, zero, suc, ◌≤◌}
use mathlib.Core.Logic.{inl, inr}
use mathlib.Core.List.{List, [], ◌∷◌}
use native.Mathlib.Omega.{arith}

module _ {ℓ} {A : Type ℓ} (key : A → ℕ) where
  unfoldable pub place : A → List A → List A
  place x [] = x ∷ []
  place x (y ∷ ys) = let later = place x ys in if leb (key x) (key y) then x ∷ y ∷ ys else y ∷ later

  unfoldable pub sort_by : List A → List A
  sort_by [] = []
  sort_by (x ∷ xs) = place x (sort_by xs)

  abbrev pub IsAscending : List A → Type 0
  IsAscending [] = Unit {0}
  IsAscending (x ∷ xs) = All (λ y. key x ≤ key y) xs × IsAscending xs

  pub place-All {κ} : (P : A → Type κ) (x : A) (ys : List A) → P x → All P ys → All P (place x ys)
  unfolding place
  place-All P x [] p h = (p, tt)
  place-All P x (y ∷ ys) p (q, h) = elim (Bool-cases (leb (key x) (key y))) [
    | inl e ↦ rw e (p, (q, h))
    | inr e ↦ rw e (q, place-All P x ys p h)
  ]

  pub sort_by-All {κ} : (P : A → Type κ) (xs : List A) → All P xs → All P (sort_by xs)
  unfolding sort_by
  sort_by-All P [] h = h
  sort_by-All P (x ∷ xs) (p, h) = place-All P x (sort_by xs) p (sort_by-All P xs h)

  above : (n m : ℕ) (ys : List A) → n ≤ m → All (λ y. m ≤ key y) ys → All (λ y. n ≤ key y) ys
  above n m [] h a = tt
  above n m (y ∷ ys) h (b, a) = (omega arith, above n m ys h a)

  place-IsAscending : (x : A) (ys : List A) → IsAscending ys → IsAscending (place x ys)
  unfolding place
  place-IsAscending x [] h = (tt, tt)
  place-IsAscending x (y ∷ ys) (a, h) = elim (Bool-cases (leb (key x) (key y))) [
    | inl e ↦ rw e (
        let le : key x ≤ key y = ground (arith, e) in ((le, above (key x) (key y) ys le a), (a, h)))
    | inr e ↦
        rw e (place-All (λ z. key y ≤ key z) x ys (ground (arith, e)) a, place-IsAscending x ys h)
  ]

  pub sort_by-IsAscending : (xs : List A) → IsAscending (sort_by xs)
  unfolding sort_by
  sort_by-IsAscending [] = tt
  sort_by-IsAscending (x ∷ xs) = place-IsAscending x (sort_by xs) (sort_by-IsAscending xs)

  pub drop-IsAscending : (n : ℕ) (xs : List A) → IsAscending xs → IsAscending (drop n xs)
  drop-IsAscending zero xs h = h
  drop-IsAscending (suc n) [] h = tt
  drop-IsAscending (suc n) (x ∷ xs) (a, h) = drop-IsAscending n xs h

  pub drop-All {κ} : (P : A → Type κ) (n : ℕ) (xs : List A) → All P xs → All P (drop n xs)
  drop-All P zero xs h = h
  drop-All P (suc n) [] h = h
  drop-All P (suc n) (x ∷ xs) (p, h) = drop-All P n xs h
