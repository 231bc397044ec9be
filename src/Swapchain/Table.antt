-- ===== src/Swapchain/Table.antt =====
-- The slots that the operations of the swapchain table find, free and hand out.
use sigaw.Prelude.{
  ℕ, zero, suc, ◌+◌, ◌≤◌, ◌<◌, ◌≡◌, ◌≢◌, refl, sym, ap, Bool, true, false, List, [], ◌∷◌, Option,
  none, some, arith, ltb, ◌==◌, get_elem?, length, if_rule, Option_rule, subst,
}
use native.Mathlib.Decide.{ℕ_discrete}
use sigaw.Swapchain.Defs.{
  SigawSwapchainData, Table, first_slot, sigaw_find_swapchain, is_free_at,
  sigaw_compact_swapchain_tail, sigaw_allocate_swapchain_slot,
}

get_elem?-inside : (xs : List SigawSwapchainData) (i : ℕ) → i < length xs → get_elem? xs i ≢ none
get_elem?-inside [] i h = absurd (omega arith)
get_elem?-inside (x ∷ xs) zero h = λ e. absurd (ground (arith, e))
get_elem?-inside (x ∷ xs) (suc i) h = get_elem?-inside xs i (omega arith)

-- A test on the slot `j`; a slot outside the array fails it.
abbrev pub at_slot : (SigawSwapchainData → Bool) → List SigawSwapchainData → ℕ → Bool
at_slot p xs j = elim (get_elem? xs j) as (λ _. Bool) [ none ↦ false | some sc ↦ p sc ]

module _ (p : SigawSwapchainData → Bool) (xs : List SigawSwapchainData) where
  first_slot-some :
      (n i j : ℕ) → first_slot p xs i n ≡ some j → (i ≤ j) × (j < i + n) × (at_slot p xs j ≡ true)
  unfolding first_slot
  first_slot-some zero i j e = absurd (ground (arith, e))
  first_slot-some (suc n) i j e =
      Option_rule (λ o. o ≡ some j → (i ≤ j) × (j < i + suc n) × (at_slot p xs j ≡ true))
        (get_elem? xs i) _ _ (λ _ k. absurd (ground (arith, k)))
        (λ sc h.
          if_rule (λ o. o ≡ some j → (i ≤ j) × (j < i + suc n) × (at_slot p xs j ≡ true)) (p sc) _ _
            (λ q k. ground (arith, h, q, k))
            (λ q k.
              let (le, lt, at) = first_slot-some n (suc i) j k in (omega arith, omega arith, at)))
        e

  first_slot-none :
      (n i j : ℕ)
      → i + n ≤ length xs
      → first_slot p xs i n ≡ none
      → i ≤ j
      → j < i + n
      → at_slot p xs j ≡ false
  unfolding first_slot
  first_slot-none zero i j fits e le lt = absurd (omega arith)
  first_slot-none (suc n) i j fits e le lt =
      Option_rule (λ o. o ≡ none → at_slot p xs j ≡ false) (get_elem? xs i) _ _
        (λ h k. absurd (get_elem?-inside xs i (omega arith) h))
        (λ sc h.
          if_rule (λ o. o ≡ none → at_slot p xs j ≡ false) (p sc) _ _
            (λ q k. absurd (ground (arith, k)))
            (λ q k. elim (ℕ_discrete i j) [
              | yes same ↦ subst (λ i. at_slot p xs i ≡ false) same (ground (arith, h, q))
              | no differ ↦ first_slot-none n (suc i) j (omega arith) k (ground arith) (omega arith)
            ]))
        e

-- The free slots at the end are no longer counted, and no other: the new count is not above the old
-- one, every slot between them is free, and the last slot that is still counted is in use.
sigaw_compact_swapchain_tail-free :
    (xs : List SigawSwapchainData) (n : ℕ)
    → let m = sigaw_compact_swapchain_tail xs n in
      (m ≤ n)
      × ((j : ℕ) → m ≤ j → j < n → is_free_at xs j ≡ true)
      × ((k : ℕ) → m ≡ suc k → is_free_at xs k ≡ false)
unfolding sigaw_compact_swapchain_tail
sigaw_compact_swapchain_tail-free xs zero =
    (omega arith, λ j le lt. absurd (omega arith), λ k e. absurd (omega arith))
sigaw_compact_swapchain_tail-free xs (suc n) =
    let (le, free, used) = sigaw_compact_swapchain_tail-free xs n in
    if_rule
      (λ m.
        (m ≤ suc n)
        × ((j : ℕ) → m ≤ j → j < suc n → is_free_at xs j ≡ true)
        × ((k : ℕ) → m ≡ suc k → is_free_at xs k ≡ false))
      (is_free_at xs n) _ _
      (λ h. (
        omega arith,
        λ j from to. elim (ℕ_discrete j n) [
          | yes same ↦ subst (λ k. is_free_at xs k ≡ true) (sym same) h
          | no differ ↦ free j from (ground arith)
        ],
        used,
      ))
      (λ h. (
        omega arith,
        λ j from to. absurd (omega arith),
        λ k e. subst (λ k. is_free_at xs k ≡ false) (omega arith) h,
      ))

some-path : (a b : ℕ) → some a ≡ some b → a ≡ b
some-path a b e = ap (λ o. elim o as (λ _. ℕ) [ none ↦ a | some x ↦ x ]) e

-- What `sigaw_allocate_swapchain_slot` makes of the table `t` of `capacity` slots.
pub record Allocated (t : Table) (capacity : ℕ) (out : Option ℕ × Table) : Type 0 where
  pub slot :
      (i : ℕ)
      → out.0 ≡ some i
      → (i < out.1.count) × (i < capacity) × (is_free_at t.swapchains i ≡ true)
  pub full : out.0 ≡ none → (j : ℕ) → j < capacity → is_free_at t.swapchains j ≡ false
  pub bounded : out.1.count ≤ capacity
  pub kept : (out.1.swapchains ≡ t.swapchains) × (out.1.freed ≡ t.freed)

-- In a table that counts no more slots than its capacity, and none in use behind those it counts: a slot that
-- `sigaw_allocate_swapchain_slot` returns is free, counted afterwards, and inside the array; it returns NULL
-- only if every slot is in use; the count stays within the capacity, and no slot changes.
pub sigaw_allocate_swapchain_slot-Allocated :
    (t : Table) (capacity : ℕ)
    → capacity ≡ length t.swapchains
    → t.count ≤ capacity
    → ((j : ℕ) → t.count ≤ j → j < capacity → is_free_at t.swapchains j ≡ true)
    → Allocated t capacity (sigaw_allocate_swapchain_slot t capacity)
unfolding sigaw_allocate_swapchain_slot
sigaw_allocate_swapchain_slot-Allocated t capacity size within free =
    let is_free : SigawSwapchainData → Bool = λ sc. sc.swapchain == 0 in
    Option_rule (Allocated t capacity) (first_slot is_free t.swapchains 0 t.count) _ _
      (λ none_free.
        if_rule (Allocated t capacity) (ltb t.count capacity) _ _
          (λ room. record {
            slot = λ i e.
                subst (λ i. (i < t.count + 1) × (i < capacity) × (is_free_at t.swapchains i ≡ true))
                  (some-path t.count i e)
                  (
                    omega arith,
                    ground (arith, room),
                    free t.count (omega arith) (ground (arith, room)),
                  );
            full = λ e. absurd (ground (arith, e));
            bounded = ground (arith, room);
            kept = (refl, refl);
          })
          (λ no_room. record {
            slot = λ i e. absurd (ground (arith, e));
            full = λ _ j lt.
                first_slot-none is_free t.swapchains t.count 0 j (omega arith) none_free
                  (omega arith) (ground (arith, no_room));
            bounded = within;
            kept = (refl, refl);
          }))
      (λ i found.
        let (le, lt, at) = first_slot-some is_free t.swapchains t.count 0 i found in
        record {
          slot = λ k e.
              subst (λ i. (i < t.count) × (i < capacity) × (is_free_at t.swapchains i ≡ true))
                (some-path i k e) (omega arith, omega arith, at);
          full = λ e. absurd (ground (arith, e));
          bounded = within;
          kept = (refl, refl);
        })

-- What `sigaw_find_swapchain` returns is the index of a counted slot of that swapchain; where it returns
-- NULL, no counted slot is of it.
pub sigaw_find_swapchain-at :
    (xs : List SigawSwapchainData) (count swapchain : ℕ)
    → count ≤ length xs
    → let is_it : SigawSwapchainData → Bool = λ sc. sc.swapchain == swapchain in
      ((i : ℕ)
        → sigaw_find_swapchain xs count swapchain ≡ some i
        → (i < count) × (at_slot is_it xs i ≡ true))
      × (sigaw_find_swapchain xs count swapchain ≡ none
          → (i : ℕ) → i < count
          → at_slot is_it xs i ≡ false)
unfolding sigaw_find_swapchain
sigaw_find_swapchain-at xs count swapchain fits =
    let is_it : SigawSwapchainData → Bool = λ sc. sc.swapchain == swapchain in
    (
      λ i e. let (le, lt, at) = first_slot-some is_it xs count 0 i e in (omega arith, at),
      λ e i lt. first_slot-none is_it xs count 0 i (omega arith) e (omega arith) (omega arith),
    )
