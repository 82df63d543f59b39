-- ===== src/Services/Table/Ordering.antt =====
-- Rows in the order of their keys: two such lists with the same rows are equal.
use mathlib.Core.List.{Permᴰ}
use fastapi_auth_api.Base.{
  ℕ, suc, ◌<◌, ◌≡◌, refl, sym, subst, ap, ◌∙◌, ◌⊎◌, inl, inr, Bool, true, false, List, [], ◌∷◌,
  arith, All, length, leb, ◌==◌, ==_iff,
}
use fastapi_auth_api.Services.Table.{Occurs, Absent, DistinctKeys, IsOrder, IsSorted}

module _ {Row : Type 0} where
  pub Occurs-Permᴰ : {xs ys : List Row} → Permᴰ xs ys → (r : Row) → Occurs r xs → Occurs r ys
  Occurs-Permᴰ Permᴰ.nil r o = o
  Occurs-Permᴰ (Permᴰ.cons e p) r (inl same) = inl (same ∙ e)
  Occurs-Permᴰ (Permᴰ.cons e p) r (inr o) = inr (Occurs-Permᴰ p r o)
  Occurs-Permᴰ (Permᴰ.swap e f) r (inl same) = inr (inl (same ∙ e))
  Occurs-Permᴰ (Permᴰ.swap e f) r (inr (inl same)) = inl (same ∙ f)
  Occurs-Permᴰ (Permᴰ.swap e f) r (inr (inr o)) = inr (inr o)
  Occurs-Permᴰ (Permᴰ.trans p q) r o = Occurs-Permᴰ q r (Occurs-Permᴰ p r o)

  pub length-Permᴰ : {xs ys : List Row} → Permᴰ xs ys → length xs ≡ length ys
  length-Permᴰ Permᴰ.nil = refl
  length-Permᴰ (Permᴰ.cons e p) = ap suc (length-Permᴰ p)
  length-Permᴰ (Permᴰ.swap e f) = refl
  length-Permᴰ (Permᴰ.trans p q) = length-Permᴰ p ∙ length-Permᴰ q

  pub All-Occurs : (P : Row → Type 0) (rs : List Row) → All P rs → (r : Row) → Occurs r rs → P r
  All-Occurs P [] a r o = absurd o
  All-Occurs P (x ∷ xs) (p, a) r (inl e) = rw e p
  All-Occurs P (x ∷ xs) (p, a) r (inr o) = All-Occurs P xs a r o

  pub Occurs-All : (P : Row → Type 0) (rs : List Row) → ((r : Row) → Occurs r rs → P r) → All P rs
  Occurs-All P [] h = tt
  Occurs-All P (x ∷ xs) h = (h x (inl refl), Occurs-All P xs (λ r o. h r (inr o)))

module _ {Row : Type 0} (key : Row → ℕ) where
  Absent-same : {j k : ℕ} (rs : List Row) → j ≡ k → Absent key j rs → Absent key k rs
  Absent-same rs e a = subst (λ n. Absent key n rs) e a

  Absent-Permᴰ : {xs ys : List Row} → Permᴰ xs ys → (k : ℕ) → Absent key k ys → Absent key k xs
  Absent-Permᴰ Permᴰ.nil k a = a
  Absent-Permᴰ (Permᴰ.cons e p) k (h, a) = (rw e h, Absent-Permᴰ p k a)
  Absent-Permᴰ (Permᴰ.swap e f) k (h, (h', a)) = (rw e h', (rw f h, a))
  Absent-Permᴰ (Permᴰ.trans p q) k a = Absent-Permᴰ p k (Absent-Permᴰ q k a)

  pub DistinctKeys-Permᴰ :
      {xs ys : List Row} → Permᴰ xs ys → DistinctKeys key ys → DistinctKeys key xs
  DistinctKeys-Permᴰ Permᴰ.nil d = d
  DistinctKeys-Permᴰ (Permᴰ.cons {b = b} e p) (h, d) =
      (rw e (Absent-Permᴰ p (key b) h), DistinctKeys-Permᴰ p d)
  DistinctKeys-Permᴰ (Permᴰ.swap {a = a} {b = b} {a' = a'} {b' = b'} e f) ((h, hs), (hs', d)) =
      let e' : key a ≡ key b' = ap key e in
      let f' : key b ≡ key a' = ap key f in
      ((ground arith, Absent-same _ (sym e') hs'), (Absent-same _ (sym f') hs, d))
  DistinctKeys-Permᴰ (Permᴰ.trans p q) d = DistinctKeys-Permᴰ p (DistinctKeys-Permᴰ q d)

  -- `.order_by(Model.id.asc())`
  abbrev pub by_key : Row → Row → Bool
  by_key a b = leb (key a) (key b)

  pub by_key-IsOrder : IsOrder by_key
  by_key-IsOrder = record { total = λ a b h. ground arith; transitive = λ a b c h h'. ground arith }

  -- The keys grow from each row to the next.
  abbrev pub Ascending : List Row → Type 0
  Ascending [] = Unit
  Ascending (r ∷ rs) = All (λ x. key r < key x) rs × Ascending rs

  above :
      (r : Row) (rs : List Row)
      → All (λ x. by_key r x ≡ true) rs
      → Absent key (key r) rs
      → All (λ x. key r < key x) rs
  above r [] a b = tt
  above r (x ∷ xs) (h, a) (h', b) = (ground arith, above r xs a b)

  pub Ascending-of_sorted :
      (rs : List Row) → IsSorted by_key rs → DistinctKeys key rs → Ascending rs
  Ascending-of_sorted [] s d = tt
  Ascending-of_sorted (r ∷ rs) (a, s) (b, d) = (above r rs a b, Ascending-of_sorted rs s d)

  same_head :
      (x y : Row) (xs ys : List Row)
      → All (λ z. key x < key z) xs
      → All (λ z. key y < key z) ys
      → (x ≡ y) ⊎ Occurs x ys
      → (y ≡ x) ⊎ Occurs y xs
      → x ≡ y
  same_head x y xs ys a b (inl e) o = e
  same_head x y xs ys a b (inr o) (inl e) = sym e
  same_head x y xs ys a b (inr o) (inr o') =
      let f = All-Occurs (λ z. key x < key z) xs a y o' in
      let g = All-Occurs (λ z. key y < key z) ys b x o in absurd (omega arith)

  later_row :
      (x y r : Row) (xs ys : List Row)
      → x ≡ y
      → All (λ z. key x < key z) xs
      → Occurs r xs
      → (r ≡ y) ⊎ Occurs r ys
      → Occurs r ys
  later_row x y r xs ys same a o (inl e) =
      let f = All-Occurs (λ z. key x < key z) xs a r o in
      let g = ap key (e ∙ sym same) in absurd (omega arith)
  later_row x y r xs ys same a o (inr o') = o'

  pub Ascending-unique :
      (xs ys : List Row)
      → Ascending xs
      → Ascending ys
      → ((r : Row) → Occurs r xs → Occurs r ys)
      → ((r : Row) → Occurs r ys → Occurs r xs)
      → xs ≡ ys
  Ascending-unique [] [] a b f g = refl
  Ascending-unique [] (y ∷ ys) a b f g = absurd (g y (inl refl))
  Ascending-unique (x ∷ xs) [] a b f g = absurd (f x (inl refl))
  Ascending-unique (x ∷ xs) (y ∷ ys) (a, as') (b, bs) f g =
      let same = same_head x y xs ys a b (f x (inl refl)) (g y (inl refl)) in
      let rest =
        Ascending-unique xs ys as' bs (λ r o. later_row x y r xs ys same a o (f r (inr o)))
          (λ r o. later_row y x r ys xs (sym same) b o (g r (inr o))) in
      cc

  first_same :
      (le : Row → Row → Bool) (P : Row → Type 0)
      → ((a b : Row) → P a → P b → le a b ≡ true → le b a ≡ true → a ≡ b)
      → (x y : Row) (xs ys : List Row) → P x
      → P y
      → All (λ z. le x z ≡ true) xs
      → All (λ z. le y z ≡ true) ys
      → (x ≡ y) ⊎ Occurs x ys
      → (y ≡ x) ⊎ Occurs y xs
      → x ≡ y
  first_same le P no_ties x y xs ys px py a b (inl e) o = e
  first_same le P no_ties x y xs ys px py a b (inr o) (inl e) = sym e
  first_same le P no_ties x y xs ys px py a b (inr o) (inr o') =
      no_ties x y px py (All-Occurs (λ z. le x z ≡ true) xs a y o')
        (All-Occurs (λ z. le y z ≡ true) ys b x o)

  among_later :
      (x y r : Row) (xs ys : List Row)
      → x ≡ y
      → Absent key (key x) xs
      → Occurs r xs
      → (r ≡ y) ⊎ Occurs r ys
      → Occurs r ys
  among_later x y r xs ys same a o (inl e) =
      let apart = All-Occurs (λ z. (key x == key z) ≡ false) xs a r o in
      let equal : key x ≡ key r = ap key (same ∙ sym e) in
      absurd (ground (arith, apart, equal, ==_iff (key x) (key r)))
  among_later x y r xs ys same a o (inr o') = o'

  -- Two sorted lists of the same rows are equal, where no two of these rows tie.
  pub IsSorted-unique :
      (le : Row → Row → Bool) (P : Row → Type 0)
      → ((a b : Row) → P a → P b → le a b ≡ true → le b a ≡ true → a ≡ b)
      → (xs ys : List Row) → IsSorted le xs
      → IsSorted le ys
      → DistinctKeys key xs
      → DistinctKeys key ys
      → ((r : Row) → Occurs r xs → P r)
      → ((r : Row) → Occurs r xs → Occurs r ys)
      → ((r : Row) → Occurs r ys → Occurs r xs)
      → xs ≡ ys
  IsSorted-unique le P no_ties [] [] s t d e p f g = refl
  IsSorted-unique le P no_ties [] (y ∷ ys) s t d e p f g = absurd (g y (inl refl))
  IsSorted-unique le P no_ties (x ∷ xs) [] s t d e p f g = absurd (f x (inl refl))
  IsSorted-unique le P no_ties (x ∷ xs) (y ∷ ys) (a, s) (b, t) (c, d) (c', e) p f g =
      let same =
        first_same le P no_ties x y xs ys (p x (inl refl)) (p y (g y (inl refl))) a b
          (f x (inl refl)) (g y (inl refl)) in
      let rest =
        IsSorted-unique le P no_ties xs ys s t d e (λ r o. p r (inr o))
          (λ r o. among_later x y r xs ys same c o (f r (inr o)))
          (λ r o. among_later y x r ys xs (sym same) c' o (g r (inr o))) in
      cc
