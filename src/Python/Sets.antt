-- ===== src/Python/Sets.antt =====
-- Python's sets of texts as lists without repetition, sorted(), list.sort and str of a list.
use mathlib.Core.List.Permᴰ
use mathlib.Core.List.{Permᴰ}
use ecu_telemetry.Prelude.{
  ◌≡◌, refl, inl, inr, Bool, true, false, not, ◌&&◌, ◌||◌, List, [], ◌∷◌, ◌++◌, ltb, ◌==◌, arith,
  Bool-cases, if◌then◌else◌,
}
use ecu_telemetry.Python.Text.{Text, text, ◌===◌, ===_iff}

-- x in xs
unfoldable pub has : Text → List Text → Bool
has x [] = false
has x (y ∷ ys) = (y === x) || has x ys

-- The loop that keeps the first of equal texts; `seen` holds those met before.
unfoldable pub fresh : List Text → List Text → List Text
unfolding has
fresh seen [] = []
fresh seen (x ∷ xs) =
    let again = fresh seen xs in
    let first = fresh (x ∷ seen) xs in if has x seen then again else x ∷ first

unfoldable pub distinct : List Text → List Text
unfolding fresh
distinct xs = fresh [] xs

-- Texts in the order of their code points.
unfoldable pub text_le : Text → Text → Bool
text_le [] t = true
text_le (c ∷ s) [] = false
text_le (c ∷ s) (d ∷ t) = ltb c d || ((c == d) && text_le s t)

module _ {ℓ} {A : Type ℓ} (le : A → A → Bool) where
  insert_by : A → List A → List A
  insert_by x [] = x ∷ []
  insert_by x (y ∷ ys) = let later = insert_by x ys in if le x y then x ∷ y ∷ ys else y ∷ later

  -- A stable sort: an element stays before those that it is `le` to.
  unfoldable pub sort_with : List A → List A
  unfolding insert_by
  sort_with [] = []
  sort_with (x ∷ xs) = insert_by x (sort_with xs)

  insert_by-Perm : (x : A) (ys : List A) → Permᴰ (insert_by x ys) (x ∷ ys)
  unfolding insert_by
  insert_by-Perm x [] = Permᴰ.refl (x ∷ [])
  insert_by-Perm x (y ∷ ys) = elim (Bool-cases (le x y)) [
    | inl e ↦ rw e (Permᴰ.refl (x ∷ y ∷ ys))
    | inr e ↦ rw e (Permᴰ.trans (Permᴰ.cons refl (insert_by-Perm x ys)) (Permᴰ.swap refl refl))
  ]

  pub sort_with-Perm : (xs : List A) → Permᴰ (sort_with xs) xs
  unfolding sort_with
  sort_with-Perm [] = Permᴰ.refl []
  sort_with-Perm (x ∷ xs) =
      Permᴰ.trans (insert_by-Perm x (sort_with xs)) (Permᴰ.cons refl (sort_with-Perm xs))

  abbrev Leads : A → List A → Type 0
  Leads x [] = Unit {0}
  Leads x (y ∷ ys) = le x y ≡ true

  -- Each element is `le` to the next.
  abbrev pub IsOrdered : List A → Type 0
  IsOrdered [] = Unit {0}
  IsOrdered (x ∷ xs) = Leads x xs × IsOrdered xs

  Leads-insert_by : (x y : A) (ys : List A) → le y x ≡ true → Leads y ys → Leads y (insert_by x ys)
  unfolding insert_by
  Leads-insert_by x y [] h a = h
  Leads-insert_by x y (z ∷ zs) h a = elim (Bool-cases (le x z)) [ inl e ↦ rw e h | inr e ↦ rw e a ]

  insert_by-IsOrdered :
      (x : A) (ys : List A)
      → ((a b : A) → le a b ≡ false → le b a ≡ true)
      → IsOrdered ys
      → IsOrdered (insert_by x ys)
  unfolding insert_by
  insert_by-IsOrdered x [] total h = (tt, tt)
  insert_by-IsOrdered x (y ∷ ys) total (a, h) = elim (Bool-cases (le x y)) [
    | inl e ↦ rw e (e, (a, h))
    | inr e ↦ rw e (Leads-insert_by x y ys (total x y e) a, insert_by-IsOrdered x ys total h)
  ]

  pub sort_with-IsOrdered :
      (xs : List A) → ((a b : A) → le a b ≡ false → le b a ≡ true) → IsOrdered (sort_with xs)
  unfolding sort_with
  sort_with-IsOrdered [] total = tt
  sort_with-IsOrdered (x ∷ xs) total =
      insert_by-IsOrdered x (sort_with xs) total (sort_with-IsOrdered xs total)

-- sorted() of a set
unfoldable pub sorted_set : List Text → List Text
unfolding distinct text_le sort_with
sorted_set xs = sort_with text_le (distinct xs)

-- The names behind the first, in str of a list.
more_names : List Text → Text
more_names [] = text "]"
more_names (n ∷ ns) = text ", '" ++ (n ++ (text "'" ++ more_names ns))

-- str of a list of names, which hold no quotes and no backslashes.
unfoldable pub list_repr : List Text → Text
unfolding more_names
list_repr [] = text "[]"
list_repr (n ∷ ns) = text "['" ++ (n ++ (text "'" ++ more_names ns))

-- No text stands twice.
abbrev pub IsDistinct : List Text → Type 0
IsDistinct [] = Unit {0}
IsDistinct (x ∷ xs) = (has x xs ≡ false) × IsDistinct xs

has-fresh :
    (x : Text) (seen xs : List Text) → has x (fresh seen xs) ≡ (has x xs && not (has x seen))
unfolding has fresh
has-fresh x seen [] = refl
has-fresh x seen (y ∷ ys) =
    ground (arith, ===_iff y x, has-fresh x seen ys, has-fresh x (y ∷ seen) ys)

fresh-IsDistinct : (seen xs : List Text) → IsDistinct (fresh seen xs)
unfolding fresh has
fresh-IsDistinct seen [] = tt
fresh-IsDistinct seen (y ∷ ys) = elim (Bool-cases (has y seen)) [
  | inl e ↦ rw e (fresh-IsDistinct seen ys)
  | inr e ↦
      rw e (ground (arith, has-fresh y (y ∷ seen) ys, ===_iff y y), fresh-IsDistinct (y ∷ seen) ys)
]

pub has-distinct : (x : Text) (xs : List Text) → has x (distinct xs) ≡ has x xs
unfolding distinct has
has-distinct x xs = ground (arith, has-fresh x [] xs)

pub distinct-IsDistinct : (xs : List Text) → IsDistinct (distinct xs)
unfolding distinct
distinct-IsDistinct xs = fresh-IsDistinct [] xs

pub has-append : (x : Text) (xs ys : List Text) → has x (xs ++ ys) ≡ (has x xs || has x ys)
unfolding has
has-append x [] ys = refl
has-append x (y ∷ xs) ys = ground (arith, has-append x xs ys)
