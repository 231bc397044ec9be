-- ===== src/Chat/Text.antt =====
-- `collapse_whitespace` of src/daemon/chat_runtime.h.
use sigaw.Prelude.{
  ℕ, ◌≡◌, refl, ◌∙◌, Bool, true, false, not, ◌&&◌, [], ◌∷◌, ◌++◌, arith, ◌==◌, if◌then◌else◌, Bytes,
  is_empty, Bool-cases, inl, inr, keep_if, ◌||◌, ◌⊎◌,
}
use mathlib.Core.List.{append-nil, append_assoc}
use sigaw.Text.{is_space}

-- The loop over the input, with `out` and `pending_space`.
collapse_onto : Bytes → Bool → Bytes → Bytes
unfolding is_space
collapse_onto out pending_space [] = out
collapse_onto out pending_space (ch ∷ input) =
    collapse_onto
      (if is_space ch then out else (if pending_space then out ++ b' ' ∷ [] else out) ++ ch ∷ [])
      (is_space ch && not (is_empty out)) input

unfoldable pub collapse_whitespace : Bytes → Bytes
unfolding collapse_onto
collapse_whitespace input = collapse_onto [] false input

-- The output behind the first visible byte, and before it, with no accumulator.
after_word : Bool → Bytes → Bytes
after_word pending [] = []
after_word pending (c ∷ s) =
    if is_space c
    then after_word true s
    else if pending
    then b' ' ∷ c ∷ after_word false s
    else c ∷ after_word false s

before_word : Bytes → Bytes
before_word [] = []
before_word (c ∷ s) = if is_space c then before_word s else c ∷ after_word false s

collapse_onto-after_word :
    (s : Bytes) (x : ℕ) (out : Bytes) (pending : Bool)
    → collapse_onto (x ∷ out) pending s ≡ x ∷ (out ++ after_word pending s)
unfolding collapse_onto after_word
collapse_onto-after_word [] x out pending = rw append-nil
collapse_onto-after_word (c ∷ s) x out pending = elim (Bool-cases (is_space c)) [
  | inl e ↦ rw e (collapse_onto-after_word s x out true)
  | inr e ↦
      elim pending as (λ p. collapse_onto (x ∷ out) p (c ∷ s) ≡ x ∷ (out ++ after_word p (c ∷ s))) [
        | true ↦
            rw e (
              collapse_onto-after_word s x ((out ++ b' ' ∷ []) ++ c ∷ []) false ∙ simp append_assoc)
        | false ↦ rw e (collapse_onto-after_word s x (out ++ c ∷ []) false ∙ simp append_assoc)
      ]
]

collapse_onto-before_word : (s : Bytes) → collapse_onto [] false s ≡ before_word s
unfolding collapse_onto before_word
collapse_onto-before_word [] = refl
collapse_onto-before_word (c ∷ s) = elim (Bool-cases (is_space c)) [
  | inl e ↦ rw e (collapse_onto-before_word s)
  | inr e ↦ rw e (collapse_onto-after_word s c [] false)
]

-- The bytes that are no white space.
abbrev pub visible : Bytes → Bytes
visible s = keep_if (λ c. not (is_space c)) s

-- One blank at most between two visible bytes, and none at the ends; the flag is that a blank, or
-- the start of the text, stands in front.
pub spaced : Bool → Bytes → Bool
spaced blank [] = not blank
spaced blank (c ∷ s) = (not (is_space c) || (not blank && c == b' ')) && spaced (is_space c) s

blank_is_space : is_space b' ' ≡ true
unfolding is_space
blank_is_space = refl

after_word_idem :
    (s : Bytes) (pending : Bool) → after_word false (after_word pending s) ≡ after_word pending s
unfolding after_word
after_word_idem [] pending = refl
after_word_idem (c ∷ s) pending =
    ground (arith, after_word_idem s true, after_word_idem s false, blank_is_space)

after_word-visible : (s : Bytes) (pending : Bool) → visible (after_word pending s) ≡ visible s
unfolding after_word keep_if
after_word-visible [] pending = refl
after_word-visible (c ∷ s) pending =
    ground (arith, after_word-visible s true, after_word-visible s false, blank_is_space)

after_word-spaced : (s : Bytes) (pending : Bool) → spaced false (after_word pending s) ≡ true
unfolding after_word spaced
after_word-spaced [] pending = refl
after_word-spaced (c ∷ s) pending =
    ground (arith, after_word-spaced s true, after_word-spaced s false, blank_is_space)

before_word_idem : (s : Bytes) → before_word (before_word s) ≡ before_word s
unfolding before_word
before_word_idem [] = refl
before_word_idem (c ∷ s) = ground (arith, before_word_idem s, after_word_idem s false)

before_word-visible : (s : Bytes) → visible (before_word s) ≡ visible s
unfolding before_word keep_if
before_word-visible [] = refl
before_word-visible (c ∷ s) = ground (arith, before_word-visible s, after_word-visible s false)

before_word-spaced : (s : Bytes) → (before_word s ≡ []) ⊎ (spaced true (before_word s) ≡ true)
unfolding before_word spaced
before_word-spaced [] = inl refl
before_word-spaced (c ∷ s) = ground (arith, before_word-spaced s, after_word-spaced s false)

-- Collapsing keeps the visible bytes in their order, leaves single blanks between them and none at
-- the ends, and changes nothing when it is done again.
collapse_whitespace-spaced :
    (s : Bytes)
    → (visible (collapse_whitespace s) ≡ visible s)
      × ((collapse_whitespace s ≡ []) ⊎ (spaced true (collapse_whitespace s) ≡ true))
      × (collapse_whitespace (collapse_whitespace s) ≡ collapse_whitespace s)
unfolding collapse_whitespace
collapse_whitespace-spaced s = rw (collapse_onto-before_word s) (
  before_word-visible s,
  before_word-spaced s,
  collapse_onto-before_word (before_word s) ∙ before_word_idem s,
)
