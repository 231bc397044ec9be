-- ===== src/Tests/Slots.antt =====
-- The theorems of Swapchain at concrete inputs, and a release that compacts the table.
use sigaw.Prelude.{
  ℕ, ◌≤◌, ◌<◌, ◌≡◌, refl, Bool, true, false, [], ◌∷◌, none, some, arith, ◌==◌, subst,
}
use sigaw.Swapchain.Defs.{
  SigawSwapchainData, empty_slot, Table, is_free_at, sigaw_find_swapchain,
  sigaw_compact_swapchain_tail, sigaw_release_swapchain, sigaw_clear_swapchain_slot,
  sigaw_allocate_swapchain_slot,
}
use sigaw.Swapchain.Table.{
  at_slot, Allocated, sigaw_allocate_swapchain_slot-Allocated, sigaw_find_swapchain-at,
}

-- A slot of the device 1, whose arrays are the blocks 100 and 200.
abbrev used : ℕ → SigawSwapchainData
used h = record empty_slot { swapchain = h; device = 1; images = 100; present_wait_sems = 200 }

-- Three slots; the second of two counted ones is in use.
abbrev one_used : Table
one_used = record { swapchains = empty_slot ∷ used 7 ∷ empty_slot ∷ []; count = 2; freed = [] }

release_compacts : sigaw_release_swapchain one_used (some 1) ≡ record {
  swapchains = empty_slot ∷ empty_slot ∷ empty_slot ∷ [];
  count = 0;
  freed = 100 ∷ 200 ∷ [];
}
unfolding sigaw_release_swapchain sigaw_clear_swapchain_slot sigaw_compact_swapchain_tail
release_compacts = refl

third_free : (j : ℕ) → 2 ≤ j → j < 3 → is_free_at one_used.swapchains j ≡ true
third_free j le lt =
    let same : 2 ≡ j = omega arith in subst (λ k. is_free_at one_used.swapchains k ≡ true) same refl

sigaw_allocate_swapchain_slot-Allocated_example :
    Allocated one_used 3 (sigaw_allocate_swapchain_slot one_used 3)
sigaw_allocate_swapchain_slot-Allocated_example =
    sigaw_allocate_swapchain_slot-Allocated one_used 3 refl (omega arith) third_free

sigaw_find_swapchain-at_example :
    let is_it : SigawSwapchainData → Bool = λ sc. sc.swapchain == 7 in
    ((i : ℕ)
      → sigaw_find_swapchain one_used.swapchains 2 7 ≡ some i
      → (i < 2) × (at_slot is_it one_used.swapchains i ≡ true))
    × (sigaw_find_swapchain one_used.swapchains 2 7 ≡ none
        → (i : ℕ) → i < 2
        → at_slot is_it one_used.swapchains i ≡ false)
sigaw_find_swapchain-at_example = sigaw_find_swapchain-at one_used.swapchains 2 7 (omega arith)
