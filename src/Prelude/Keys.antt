-- ===== src/Prelude/Keys.antt =====
-- Lists of records with a numeric key: which keys are absent, and lists whose keys are distinct.
use sigaw.Prelude.Tests.{if◌then◌else◌, ◌==◌}
use sigaw.Prelude.Lists.{All, keep_if, find_if, drop, All-append, All-keep_if}
use Prim.Native.Nat.{ℕ, zero, suc}
use mathlib.Core.Path.{◌≡◌, refl, sym}
use mathlib.Core.Logic.{◌≢◌}
use mathlib.Core.Bool.{Bool, true, false, not}
use mathlib.Core.List.{List, [], ◌∷◌, ◌++◌}
use mathlib.Core.Option.{none, some}
use native.Mathlib.Omega.{arith}

module _ {A : Type 0} (key : A → ℕ) where
  -- No element has the key `k`.
  abbrev pub Fresh : ℕ → List A → Type 0
  Fresh k xs = All (λ x. key x ≢ k) xs

  -- No two elements share a key.
  abbrev pub Distinct : List A → Type 0
  Distinct [] = Unit
  Distinct (x ∷ xs) = Fresh (key x) xs × Distinct xs

module _ {A : Type 0} (key : A → ℕ) where
  pub Distinct-keep_if :
      (p : A → Bool) (xs : List A) → Distinct key xs → Distinct key (keep_if p xs)
  unfolding keep_if
  Distinct-keep_if p [] d = d
  Distinct-keep_if p (x ∷ xs) d =
      let rest = Distinct-keep_if p xs d.1 in
      elim (p x) as (λ b. Distinct key (if b then x ∷ keep_if p xs else keep_if p xs)) [
        | true ↦ (All-keep_if (λ y. key y ≢ key x) p xs d.0, rest)
        | false ↦ rest
      ]

  pub Fresh-keep_if_ne : (k : ℕ) (xs : List A) → Fresh key k (keep_if (λ x. not (key x == k)) xs)
  unfolding keep_if
  Fresh-keep_if_ne k [] = tt
  Fresh-keep_if_ne k (x ∷ xs) = ground (arith, Fresh-keep_if_ne k xs)

  pub Distinct-concat :
      (xs : List A) (x : A) → Distinct key xs → Fresh key (key x) xs → Distinct key (xs ++ x ∷ [])
  Distinct-concat [] x d f = (tt, tt)
  Distinct-concat (y ∷ ys) x d f = (
    All-append (λ z. key z ≢ key y) ys (x ∷ []) d.0 ((λ e. f.0 (sym e)), tt),
    Distinct-concat ys x d.1 f.1,
  )

  pub Distinct-drop : (n : ℕ) (xs : List A) → Distinct key xs → Distinct key (drop n xs)
  Distinct-drop zero xs d = d
  Distinct-drop (suc n) [] d = d
  Distinct-drop (suc n) (x ∷ xs) d = Distinct-drop n xs d.1

  pub find_if-none-Fresh :
      (k : ℕ) (xs : List A) → find_if (λ x. key x == k) xs ≡ none → Fresh key k xs
  unfolding find_if
  find_if-none-Fresh k [] h = tt
  find_if-none-Fresh k (x ∷ xs) h = ground (arith, find_if-none-Fresh k xs)

  pub Fresh-find_if : (k : ℕ) (xs : List A) → Fresh key k xs → find_if (λ x. key x == k) xs ≡ none
  unfolding find_if
  Fresh-find_if k [] h = refl
  Fresh-find_if k (x ∷ xs) h = ground (arith, Fresh-find_if k xs h.1)

  -- With distinct keys, a change of one element that keeps its key keeps them distinct.
  pub find_if-key :
      (k : ℕ) (xs : List A) (x : A) → find_if (λ y. key y == k) xs ≡ some x → key x ≡ k
  unfolding find_if
  find_if-key k [] x h = absurd (cc)
  find_if-key k (y ∷ ys) x h = ground (arith, find_if-key k ys x)
