-- ===== src/Memory/Sorting.antt =====
-- ORDER BY of the in-memory tables: insertion sort.
use mathlib.Core.Logic.{inl, inr}
use mathlib.Core.Path.{refl}
use mathlib.Core.List.{Permᴰ}
use mathlib.Core.List.Permᴰ
use fastapi_auth_api.Base.{◌≡◌, Bool, true, List, [], ◌∷◌, All, Bool-cases, if◌then◌else◌}
use fastapi_auth_api.Services.Table.{IsOrder, IsSorted}

module _ {Row : Type 0} (le : Row → Row → Bool) where
  abbrev pub place : Row → List Row → List Row
  place r [] = r ∷ []
  place r (x ∷ xs) = if le r x then r ∷ x ∷ xs else x ∷ place r xs

  abbrev pub insertion_sort : List Row → List Row
  insertion_sort [] = []
  insertion_sort (r ∷ rs) = place r (insertion_sort rs)

  All-place : (P : Row → Type 0) (r : Row) (xs : List Row) → P r → All P xs → All P (place r xs)
  All-place P r [] p a = (p, tt)
  All-place P r (x ∷ xs) p (px, a) = elim (Bool-cases (le r x)) [
    | inl e ↦ rw e (p, (px, a))
    | inr e ↦ rw e (px, All-place P r xs p a)
  ]

  module _ (order : IsOrder le) where
    all_above :
        (r x : Row) (xs : List Row)
        → le r x ≡ true
        → All (λ y. le x y ≡ true) xs
        → All (λ y. le r y ≡ true) xs
    all_above r x [] h a = tt
    all_above r x (y ∷ ys) h (first, a) = (order.transitive r x y h first, all_above r x ys h a)

    place-IsSorted : (r : Row) (xs : List Row) → IsSorted le xs → IsSorted le (place r xs)
    place-IsSorted r [] s = (tt, tt)
    place-IsSorted r (x ∷ xs) (a, s) = elim (Bool-cases (le r x)) [
      | inl e ↦ rw e ((e, all_above r x xs e a), (a, s))
      | inr e ↦
          rw e (All-place (λ y. le x y ≡ true) r xs (order.total r x e) a, place-IsSorted r xs s)
    ]

    pub insertion_sort-IsSorted : (rs : List Row) → IsSorted le (insertion_sort rs)
    insertion_sort-IsSorted [] = tt
    insertion_sort-IsSorted (r ∷ rs) =
        place-IsSorted r (insertion_sort rs) (insertion_sort-IsSorted rs)

  place-Permᴰ : (r : Row) (xs : List Row) → Permᴰ (place r xs) (r ∷ xs)
  place-Permᴰ r [] = Permᴰ.refl (r ∷ [])
  place-Permᴰ r (x ∷ xs) = elim (Bool-cases (le r x)) [
    | inl e ↦ rw e (Permᴰ.refl (r ∷ x ∷ xs))
    | inr e ↦ rw e (Permᴰ.trans (Permᴰ.cons refl (place-Permᴰ r xs)) (Permᴰ.swap refl refl))
  ]

  pub insertion_sort-Permᴰ : (rs : List Row) → Permᴰ (insertion_sort rs) rs
  insertion_sort-Permᴰ [] = Permᴰ.nil
  insertion_sort-Permᴰ (r ∷ rs) =
      Permᴰ.trans (place-Permᴰ r (insertion_sort rs)) (Permᴰ.cons refl (insertion_sort-Permᴰ rs))
