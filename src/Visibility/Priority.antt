-- ===== src/Visibility/Priority.antt =====
-- What `select_visible_user_indices` promises.
use sigaw.Prelude.{
  ℕ, zero, suc, ◌+◌, ◌-◌, min, ◌≤◌, ◌<◌, ◌≡◌, ◌≢◌, refl, ◌∙◌, ap, subst, true, ◌||◌, List, [], ◌∷◌,
  inl, inr, arith, ◌==◌, leb, All, length, if_rule,
}
use native.Mathlib.Decide.{ℕ_discrete}
use sigaw.Protocol.{SigawState}
use sigaw.Visibility.Sorting.{
  sort, In, Increasing, NoRepeat, All-sort, length-sort, In-sort, In-of_sort, Increasing-sort,
}
use sigaw.Visibility.Defs.{indices_from, offer_all, select_visible_user_indices}
use sigaw.Visibility.Selection.{Prefers, IsSelection, offer_all-IsSelection}

length-indices_from : (s n : ℕ) → length (indices_from s n) ≡ n
unfolding indices_from
length-indices_from s zero = refl
length-indices_from s (suc n) = ap suc (length-indices_from (suc s) n)

All-above : (k s n : ℕ) → k ≤ s → All (λ x. k ≤ x) (indices_from s n)
unfolding indices_from
All-above k s zero h = tt
All-above k s (suc n) h = (h, All-above k (suc s) n (omega arith))

All-below : (s n b : ℕ) → s + n ≤ b → All (λ x. x < b) (indices_from s n)
unfolding indices_from
All-below s zero b h = tt
All-below s (suc n) b h = (omega arith, All-below (suc s) n b (omega arith))

All-above→lt : (k : ℕ) (xs : List ℕ) → All (λ x. suc k ≤ x) xs → All (λ x. k < x) xs
All-above→lt k [] a = tt
All-above→lt k (x ∷ xs) a = (omega arith, All-above→lt k xs a.1)

Increasing-indices_from : (s n : ℕ) → Increasing (indices_from s n)
unfolding indices_from
Increasing-indices_from s zero = tt
Increasing-indices_from s (suc n) = (
  All-above→lt s (indices_from (suc s) n) (All-above (suc s) (suc s) n (omega arith)),
  Increasing-indices_from (suc s) n,
)

All-lt→ne : (k : ℕ) (xs : List ℕ) → All (λ x. k < x) xs → All (λ x. x ≢ k) xs
All-lt→ne k [] a = tt
All-lt→ne k (x ∷ xs) a = (omega arith, All-lt→ne k xs a.1)

Increasing-NoRepeat : (xs : List ℕ) → Increasing xs → NoRepeat xs
Increasing-NoRepeat [] i = tt
Increasing-NoRepeat (x ∷ xs) i = (All-lt→ne x xs i.0, Increasing-NoRepeat xs i.1)

In-indices_from : (s n j : ℕ) → s ≤ j → j < s + n → In j (indices_from s n)
unfolding indices_from
In-indices_from s zero j lo hi = absurd (omega arith)
In-indices_from s (suc n) j lo hi = elim (ℕ_discrete s j) [
  | yes e ↦ inl e
  | no ne ↦ inr (In-indices_from (suc s) n j (omega arith) (omega arith))
]

In-none : (i : ℕ) → In i (indices_from 0 0) → ⊥
unfolding indices_from
In-none i m = m

-- The overlay's choice of users.
pub record IsChoice (state : SigawState) (max_visible : ℕ) (xs : List ℕ) : Type 0 where
  pub as_many : length xs ≡ min max_visible state.user_count
  pub in_order : Increasing xs
  pub existing : All (λ x. x < state.user_count) xs
  pub speakers_first : Prefers state state.user_count xs

module _ (state : SigawState) (max_visible : ℕ) where
  -- With room for every user, or for none, the first ones are the choice.
  first-IsChoice :
      (v : ℕ)
      → v ≡ min max_visible state.user_count
      → (v == 0 || leb state.user_count v) ≡ true
      → IsChoice state max_visible (indices_from 0 v)
  first-IsChoice v e h = record {
    as_many = length-indices_from 0 v ∙ e;
    in_order = Increasing-indices_from 0 v;
    existing = All-below 0 v state.user_count (omega arith);
    speakers_first = λ i j m quiet lt talks. elim (ℕ_discrete v 0) [
      | yes none ↦ absurd (In-none i (subst (λ k. In i (indices_from 0 k)) none m))
      | no room ↦ In-indices_from 0 v j (omega arith) (ground arith)
    ];
  }

  start-IsSelection : (v : ℕ) → IsSelection state v v (indices_from 0 v)
  start-IsSelection v = record {
    sized = length-indices_from 0 v;
    distinct = Increasing-NoRepeat (indices_from 0 v) (Increasing-indices_from 0 v);
    below = All-below 0 v v (omega arith);
    prefers = λ i j m quiet lt talks. In-indices_from 0 v j (omega arith) (omega arith);
  }

  sorted-IsChoice :
      (v : ℕ) (xs : List ℕ)
      → v ≡ min max_visible state.user_count
      → IsSelection state state.user_count v xs
      → IsChoice state max_visible (sort xs)
  sorted-IsChoice v xs e s = record {
    as_many = length-sort xs ∙ s.sized ∙ e;
    in_order = Increasing-sort xs s.distinct;
    existing = All-sort (λ x. x < state.user_count) xs s.below;
    speakers_first =
        λ i j m quiet lt talks. In-sort j xs (s.prefers i j (In-of_sort i xs m) quiet lt talks);
  }

  -- The overlay shows as many users as fit, each once, in the order of the channel and all of them
  -- present; and it shows a silent user only if every speaking user is shown as well.
  pub select_visible_user_indices-IsChoice :
      IsChoice state max_visible (select_visible_user_indices state max_visible)
  unfolding select_visible_user_indices
  select_visible_user_indices-IsChoice =
      let v = min max_visible state.user_count in
      let n = state.user_count in
      if_rule (IsChoice state max_visible) (v == 0 || leb n v) _ _ (first-IsChoice v refl) λ room.
        let done = offer_all-IsSelection state v (n - v) v _ (start-IsSelection v) in
        sorted-IsChoice v _ refl (
          subst (λ k. IsSelection state k v (offer_all state v (n - v) (indices_from 0 v)))
            (omega arith) done)
