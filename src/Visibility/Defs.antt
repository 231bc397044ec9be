-- ===== src/Visibility/Defs.antt =====
-- `select_visible_user_indices` of src/layer/overlay_visibility.h.
use sigaw.Prelude.{
  ℕ, zero, suc, ◌-◌, min, Bool, false, not, ◌||◌, List, [], ◌∷◌, Option, none, some, ◌==◌, leb,
  if◌then◌else◌, get_elem?,
}
use sigaw.Protocol.{SigawState}
use sigaw.Visibility.Sorting.{sort}

-- `state.users[i].speaking`; an index past the array, which no caller gives, is not speaking.
unfoldable pub speaks : SigawState → ℕ → Bool
speaks state i = elim (get_elem? state.users i) [ none ↦ false | some u ↦ not (u.speaking == 0) ]

-- `start`, `start + 1` and so on: `n` indices.
unfoldable pub indices_from : ℕ → ℕ → List ℕ
indices_from start zero = []
indices_from start (suc n) = start ∷ indices_from (suc start) n

unfoldable pub contains : List ℕ → ℕ → Bool
contains [] i = false
contains (x ∷ xs) i = x == i || contains xs i

-- The loop over the slots from the last one down: the first silent user met gives its slot to `i`.
-- `none` is the end of the loop with no such slot.
unfoldable pub replace_last_silent : SigawState → ℕ → List ℕ → Option (List ℕ)
replace_last_silent state i [] = none
replace_last_silent state i (x ∷ xs) = elim (replace_last_silent state i xs) [
  | some ys ↦ some (x ∷ ys)
  | none ↦ if speaks state x then none else some (i ∷ xs)
]

-- The body of the loop over the users that are not visible at first.
unfoldable pub offer : SigawState → ℕ → List ℕ → List ℕ
offer state i indices =
    if not (speaks state i)
    then indices
    else if contains indices i
    then indices
    else elim (replace_last_silent state i indices) [ none ↦ indices | some changed ↦ changed ]

-- The loop: `n` users from the index `i` on.
unfoldable pub offer_all : SigawState → ℕ → ℕ → List ℕ → List ℕ
offer_all state i zero indices = indices
offer_all state i (suc n) indices = offer_all state (suc i) n (offer state i indices)

unfoldable pub select_visible_user_indices : SigawState → ℕ → List ℕ
select_visible_user_indices state max_visible =
    let visible_count = min max_visible state.user_count in
    let first = indices_from 0 visible_count in
    if visible_count == 0 || leb state.user_count visible_count
    then first
    else sort (offer_all state visible_count (state.user_count - visible_count) first)
