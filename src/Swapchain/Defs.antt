-- ===== src/Swapchain/Defs.antt =====
-- The operations of src/layer/swapchain_bookkeeping.h. Vulkan handles are numbers, and the null handle is 0. The
-- pointers to a slot of the array are its indices. The two arrays that a slot owns are on a heap of which
-- the model keeps the blocks that were given to `free`, in order; 0 is the null pointer.
use sigaw.Prelude.{
  ℕ, zero, suc, ◌+◌, Bool, false, ◌&&◌, not, List, [], ◌∷◌, ◌++◌, Option, none, some, ltb, ◌==◌,
  if◌then◌else◌, set, get_elem?,
}

pub record SigawSwapchainData : Type 0 where
  pub swapchain : ℕ
  pub device : ℕ
  pub format : ℕ
  pub width : ℕ
  pub height : ℕ
  pub images : ℕ
  pub image_count : ℕ
  pub present_wait_sems : ℕ

-- `images` and `present_wait_sems` are set to NULL, the handles to VK_NULL_HANDLE, the format to
-- VK_FORMAT_UNDEFINED.
abbrev pub empty_slot : SigawSwapchainData
empty_slot = record {
  swapchain = 0;
  device = 0;
  format = 0;
  width = 0;
  height = 0;
  images = 0;
  image_count = 0;
  present_wait_sems = 0;
}

-- The array, its `count`, and the blocks freed so far.
pub record Table : Type 0 where
  pub swapchains : List SigawSwapchainData
  pub count : ℕ
  pub freed : List ℕ

-- The loop from the index `i` on over `n` slots; `none` is NULL.
unfoldable pub first_slot : (SigawSwapchainData → Bool) → List SigawSwapchainData → ℕ → ℕ → Option ℕ
first_slot p swapchains i zero = none
first_slot p swapchains i (suc n) =
    let rest = first_slot p swapchains (suc i) n in
    elim (get_elem? swapchains i) as (λ _. Option ℕ) [
      | none ↦ none
      | some sc ↦ if p sc then some i else rest
    ]

unfoldable pub sigaw_find_swapchain : List SigawSwapchainData → ℕ → ℕ → Option ℕ
unfolding first_slot
sigaw_find_swapchain swapchains count swapchain =
    first_slot (λ sc. sc.swapchain == swapchain) swapchains 0 count

unfoldable pub sigaw_clear_swapchain_slot : Table → ℕ → Table
sigaw_clear_swapchain_slot t index = elim (get_elem? t.swapchains index) as (λ _. Table) [
  | none ↦ t
  | some sc ↦ record t {
    swapchains = set t.swapchains index empty_slot;
    freed = t.freed ++ (sc.images ∷ sc.present_wait_sems ∷ []);
  }
]

-- The last slot that is counted is free.
abbrev pub is_free_at : List SigawSwapchainData → ℕ → Bool
is_free_at swapchains i = elim (get_elem? swapchains i) as (λ _. Bool) [
  | none ↦ false
  | some sc ↦ sc.swapchain == 0
]

-- The new `count`.
unfoldable pub sigaw_compact_swapchain_tail : List SigawSwapchainData → ℕ → ℕ
sigaw_compact_swapchain_tail swapchains zero = zero
sigaw_compact_swapchain_tail swapchains (suc n) =
    let less = sigaw_compact_swapchain_tail swapchains n in
    if is_free_at swapchains n then less else suc n

-- `sc` may be NULL.
unfoldable pub sigaw_release_swapchain : Table → Option ℕ → Table
unfolding sigaw_clear_swapchain_slot sigaw_compact_swapchain_tail
sigaw_release_swapchain t sc =
    let cleared = elim sc as (λ _. Table) [
      | none ↦ t
      | some index ↦ sigaw_clear_swapchain_slot t index
    ] in
    record cleared { count = sigaw_compact_swapchain_tail cleared.swapchains cleared.count }

-- The loop of `sigaw_release_swapchains_for_device` from the index `i` on over `n` slots.
unfoldable pub clear_for_device : ℕ → ℕ → ℕ → Table → Table
unfolding sigaw_clear_swapchain_slot
clear_for_device device i zero t = t
clear_for_device device i (suc n) t =
    let ours = elim (get_elem? t.swapchains i) as (λ _. Bool) [
      | none ↦ false
      | some sc ↦ not (sc.swapchain == 0) && sc.device == device
    ] in
    clear_for_device device (suc i) n (if ours then sigaw_clear_swapchain_slot t i else t)

unfoldable pub sigaw_release_swapchains_for_device : Table → ℕ → Table
unfolding clear_for_device sigaw_compact_swapchain_tail
sigaw_release_swapchains_for_device t device =
    let cleared = clear_for_device device 0 t.count t in
    record cleared { count = sigaw_compact_swapchain_tail cleared.swapchains cleared.count }

-- The slot, or NULL, and the table with its new `count`.
unfoldable pub sigaw_allocate_swapchain_slot : Table → ℕ → Option ℕ × Table
unfolding first_slot
sigaw_allocate_swapchain_slot t capacity =
    elim (first_slot (λ sc. sc.swapchain == 0) t.swapchains 0 t.count) as (λ _. Option ℕ × Table) [
      | some i ↦ (some i, t)
      | none ↦
          if ltb t.count capacity
          then (some t.count, record t { count = t.count + 1 })
          else (none, t)
    ]
