-- ===== src/Pagination/Rows.antt =====
-- The first rows of a list and the rest, for lists by ascending keys.
use native.Mathlib.Nat.{zero-add, suc-add, add-zero}
use fastapi_auth_api.Base.{
  ◌+◌, ℕ, zero, suc, ◌≤◌, ◌<◌, ◌≡◌, refl, ap, ◌∙◌, inl, inr, some, List, [], ◌∷◌, ◌++◌, arith,
  length, take, drop,
}
use fastapi_auth_api.Services.Table.{Occurs}
use fastapi_auth_api.Services.Table.Ordering.{Ascending, All-Occurs}
use fastapi_auth_api.Pagination.{last_of}

module _ {Row : Type 0} where
  pub take-take_longer : (n : ℕ) (xs : List Row) → take n (take (suc n) xs) ≡ take n xs
  take-take_longer zero xs = refl
  take-take_longer (suc n) [] = refl
  take-take_longer (suc n) (x ∷ xs) = ap (λ l. x ∷ l) (take-take_longer n xs)

  pub take_all : (n : ℕ) (xs : List Row) → length xs ≤ n → take n xs ≡ xs
  take_all zero [] h = refl
  take_all zero (x ∷ xs) h = absurd (omega arith)
  take_all (suc n) [] h = refl
  take_all (suc n) (x ∷ xs) h = ap (λ l. x ∷ l) (take_all n xs (omega arith))

  pub take-append-drop : (n : ℕ) (xs : List Row) → take n xs ++ drop n xs ≡ xs
  take-append-drop zero xs = refl
  take-append-drop (suc n) [] = refl
  take-append-drop (suc n) (x ∷ xs) = ap (λ l. x ∷ l) (take-append-drop n xs)

  pub drop-drop : (m n : ℕ) (xs : List Row) → drop (m + n) xs ≡ drop n (drop m xs)
  drop-drop zero n xs = rw (zero-add n) refl
  drop-drop (suc m) zero [] = rw (add-zero (suc m)) refl
  drop-drop (suc m) (suc n) [] = rw (suc-add m (suc n)) refl
  drop-drop (suc m) n (x ∷ xs) = rw (suc-add m n) (drop-drop m n xs)

  pub last_of-some :
      (n : ℕ) (xs : List Row) → 1 ≤ n → 1 ≤ length xs → (x : Row) × (last_of (take n xs) ≡ some x)
  last_of-some zero xs h h' = absurd (omega arith)
  last_of-some (suc n) [] h h' = absurd (omega arith)
  last_of-some (suc zero) (x ∷ xs) h h' = (x, refl)
  last_of-some (suc (suc n)) (x ∷ []) h h' = (x, refl)
  last_of-some (suc (suc n)) (x ∷ y ∷ ys) h h' =
      last_of-some (suc n) (y ∷ ys) (omega arith) (omega arith)

module _ {Row : Type 0} (key : Row → ℕ) where
  pub Ascending-drop : (n : ℕ) (xs : List Row) → Ascending key xs → Ascending key (drop n xs)
  Ascending-drop zero xs a = a
  Ascending-drop (suc n) [] a = a
  Ascending-drop (suc n) (x ∷ xs) a = Ascending-drop n xs a.1

  pub Occurs-drop : (n : ℕ) (xs : List Row) (r : Row) → Occurs r (drop n xs) → Occurs r xs
  Occurs-drop zero xs r o = o
  Occurs-drop (suc n) [] r o = o
  Occurs-drop (suc n) (x ∷ xs) r o = inr (Occurs-drop n xs r o)

  -- In a list by ascending keys, what follows the first rows is what has greater keys than they.
  module _ (x : Row) where
    pub last_below :
        (n : ℕ) (xs : List Row) (r : Row)
        → Ascending key xs
        → last_of (take n xs) ≡ some x
        → Occurs r (drop n xs)
        → key x < key r
    last_below zero xs r a h o = absurd (ground arith)
    last_below (suc n) [] r a h o = absurd (ground arith)
    last_below (suc zero) (y ∷ ys) r (b, a) h o =
        let same : y ≡ x = ground arith in rw (← same) (All-Occurs (λ z. key y < key z) ys b r o)
    last_below (suc (suc n)) (y ∷ []) r a h o = absurd o
    last_below (suc (suc n)) (y ∷ z ∷ zs) r (b, a) h o = last_below (suc n) (z ∷ zs) r a h o

    pub last_Occurs : (n : ℕ) (xs : List Row) → last_of (take n xs) ≡ some x → Occurs x xs
    last_Occurs zero xs h = absurd (ground arith)
    last_Occurs (suc n) [] h = absurd (ground arith)
    last_Occurs (suc zero) (y ∷ ys) h = inl (ground arith)
    last_Occurs (suc (suc n)) (y ∷ []) h = inl (ground arith)
    last_Occurs (suc (suc n)) (y ∷ z ∷ zs) h = inr (last_Occurs (suc n) (z ∷ zs) h)

    pub above_last :
        (n : ℕ) (xs : List Row) (r : Row)
        → Ascending key xs
        → last_of (take n xs) ≡ some x
        → key x < key r
        → Occurs r xs
        → Occurs r (drop n xs)
    above_last zero xs r a h lt o = o
    above_last (suc n) [] r a h lt o = o
    above_last (suc zero) (y ∷ ys) r a h lt (inl e) =
        let same : y ≡ x = ground arith in let k = ap key (e ∙ same) in absurd (omega arith)
    above_last (suc zero) (y ∷ ys) r a h lt (inr o) = o
    above_last (suc (suc n)) (y ∷ []) r a h lt (inl e) =
        let same : y ≡ x = ground arith in let k = ap key (e ∙ same) in absurd (omega arith)
    above_last (suc (suc n)) (y ∷ []) r a h lt (inr o) = absurd o
    above_last (suc (suc n)) (y ∷ z ∷ zs) r (b, a) h lt (inl e) =
        let low = All-Occurs (λ z. key y < key z) (z ∷ zs) b x (last_Occurs (suc n) (z ∷ zs) h) in
        let k = ap key e in absurd (omega arith)
    above_last (suc (suc n)) (y ∷ z ∷ zs) r (b, a) h lt (inr o) =
        above_last (suc n) (z ∷ zs) r a h lt o
