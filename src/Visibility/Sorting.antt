-- ===== src/Visibility/Sorting.antt =====
-- `std::sort` on indices, and what it keeps. The library leaves the algorithm open; its result on
-- numbers is the same for each.
use sigaw.Prelude.{
  ℕ, suc, ◌<◌, ◌≡◌, ◌≢◌, refl, ◌∙◌, ap, List, [], ◌∷◌, ◌⊎◌, inl, inr, arith, leb, if◌then◌else◌,
  All, Any, length, if_rule,
}

unfoldable pub insert_sorted : ℕ → List ℕ → List ℕ
insert_sorted x [] = x ∷ []
insert_sorted x (y ∷ ys) = if leb x y then x ∷ y ∷ ys else y ∷ insert_sorted x ys

unfoldable pub sort : List ℕ → List ℕ
unfolding insert_sorted
sort [] = []
sort (x ∷ xs) = insert_sorted x (sort xs)

-- `j` is one of the numbers.
abbrev pub In : ℕ → List ℕ → Type 0
In j xs = Any (λ x. x ≡ j) xs

-- Each number is below all that follow it.
abbrev pub Increasing : List ℕ → Type 0
Increasing [] = Unit
Increasing (x ∷ xs) = All (λ y. x < y) xs × Increasing xs

-- No number occurs twice.
abbrev pub NoRepeat : List ℕ → Type 0
NoRepeat [] = Unit
NoRepeat (x ∷ xs) = All (λ y. y ≢ x) xs × NoRepeat xs

module _ (P : ℕ → Type 0) where
  All-insert_sorted : (x : ℕ) (xs : List ℕ) → P x → All P xs → All P (insert_sorted x xs)
  unfolding insert_sorted
  All-insert_sorted x [] p h = (p, tt)
  All-insert_sorted x (y ∷ ys) p h =
      if_rule (All P) (leb x y) _ _ (λ _. (p, h)) λ _. (h.0, All-insert_sorted x ys p h.1)

  pub All-sort : (xs : List ℕ) → All P xs → All P (sort xs)
  unfolding sort
  All-sort [] h = h
  All-sort (x ∷ xs) h = All-insert_sorted x (sort xs) h.0 (All-sort xs h.1)

length-insert_sorted : (x : ℕ) (xs : List ℕ) → length (insert_sorted x xs) ≡ suc (length xs)
unfolding insert_sorted
length-insert_sorted x [] = refl
length-insert_sorted x (y ∷ ys) = ground (arith, length-insert_sorted x ys)

pub length-sort : (xs : List ℕ) → length (sort xs) ≡ length xs
unfolding sort
length-sort [] = refl
length-sort (x ∷ xs) = length-insert_sorted x (sort xs) ∙ ap suc (length-sort xs)

In-insert_sorted : (j x : ℕ) (xs : List ℕ) → (x ≡ j) ⊎ In j xs → In j (insert_sorted x xs)
unfolding insert_sorted
In-insert_sorted j x [] h = h
In-insert_sorted j x (y ∷ ys) h = ground (arith, In-insert_sorted j x ys)

In-of_insert_sorted : (j x : ℕ) (xs : List ℕ) → In j (insert_sorted x xs) → (x ≡ j) ⊎ In j xs
unfolding insert_sorted
In-of_insert_sorted j x [] h = h
In-of_insert_sorted j x (y ∷ ys) h = ground (arith, In-of_insert_sorted j x ys)

pub In-sort : (j : ℕ) (xs : List ℕ) → In j xs → In j (sort xs)
unfolding sort
In-sort j [] h = h
In-sort j (x ∷ xs) (inl e) = In-insert_sorted j x (sort xs) (inl e)
In-sort j (x ∷ xs) (inr h) = In-insert_sorted j x (sort xs) (inr (In-sort j xs h))

pub In-of_sort : (j : ℕ) (xs : List ℕ) → In j (sort xs) → In j xs
unfolding sort
In-of_sort j [] h = h
In-of_sort j (x ∷ xs) h = elim (In-of_insert_sorted j x (sort xs) h) [
  | inl e ↦ inl e
  | inr t ↦ inr (In-of_sort j xs t)
]

All-lt_trans : (x y : ℕ) (ys : List ℕ) → x < y → All (λ z. y < z) ys → All (λ z. x < z) ys
All-lt_trans x y [] h a = tt
All-lt_trans x y (z ∷ zs) h a = (omega arith, All-lt_trans x y zs h a.1)

Increasing-insert_sorted :
    (x : ℕ) (xs : List ℕ) → Increasing xs → All (λ y. y ≢ x) xs → Increasing (insert_sorted x xs)
unfolding insert_sorted
Increasing-insert_sorted x [] i a = (tt, tt)
Increasing-insert_sorted x (y ∷ ys) i a =
    if_rule Increasing (leb x y) _ _
      (λ le. let lt : x < y = ground arith in ((lt, All-lt_trans x y ys lt i.0), i))
      λ gt. (
        All-insert_sorted (λ z. y < z) x ys (ground arith) i.0,
        Increasing-insert_sorted x ys i.1 a.1,
      )

-- Distinct numbers come out in increasing order.
pub Increasing-sort : (xs : List ℕ) → NoRepeat xs → Increasing (sort xs)
unfolding sort
Increasing-sort [] d = tt
Increasing-sort (x ∷ xs) d =
    Increasing-insert_sorted x (sort xs) (Increasing-sort xs d.1) (All-sort (λ y. y ≢ x) xs d.0)
