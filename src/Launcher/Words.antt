-- ===== src/Launcher/Words.antt =====
-- The preload list as the list of its entries.
use sigaw.Prelude.{
  ℕ, zero, suc, ◌≤◌, ◌<◌, ◌≡◌, refl, ◌∙◌, ap₂, true, false, List, [], ◌∷◌, ◌++◌, ◌⊎◌, arith,
  if◌then◌else◌, Bytes, str_eq, str_eq_refl, is_empty, is_empty→nil, length, All, any_of, inl, inr,
}
use sigaw.Text.{is_space}
use sigaw.Launcher.Defs.{
  is_preload_separator, skip_separators, token, after_token, preload_contains_from,
  preload_contains, prepend_preload,
}

abbrev add_word : Bytes → List Bytes → List Bytes
add_word w ws = if is_empty w then ws else w ∷ ws

-- The entry that a text begins with, and the entries behind its first separator.
segments : Bytes → Bytes × List Bytes
segments [] = ([], [])
segments (c ∷ s) =
    let (w, ws) = segments s in if is_preload_separator c then ([], add_word w ws) else (c ∷ w, ws)

-- The entries of a preload list, split at every colon and white space.
pub words : Bytes → List Bytes
unfolding segments
words s = let (w, ws) = segments s in add_word w ws

words-skip_separators : (s : Bytes) → words (skip_separators s) ≡ words s
unfolding words skip_separators
words-skip_separators [] = refl
words-skip_separators (c ∷ s) = ground (arith, words-skip_separators s)

segments-token : (s : Bytes) → (segments s).0 ≡ token s
unfolding segments token
segments-token [] = refl
segments-token (c ∷ s) = ground (arith, segments-token s)

segments-after_token : (s : Bytes) → (segments s).1 ≡ words (after_token s)
unfolding words after_token
segments-after_token [] = refl
segments-after_token (c ∷ s) = ground (arith, segments-after_token s)

no_words : words [] ≡ []
unfolding words segments
no_words = refl

blank_separates : is_preload_separator b' ' ≡ true
unfolding is_preload_separator is_space
blank_separates = refl

words_lem : (s : Bytes) → words s ≡ add_word (segments s).0 (segments s).1
unfolding words
words_lem s = refl

words-token : (s : Bytes) → words s ≡ add_word (token s) (words (after_token s))
words-token s = words_lem s ∙ ap₂ add_word (segments-token s) (segments-after_token s)

length-skip_separators : (s : Bytes) → length (skip_separators s) ≤ length s
unfolding skip_separators
length-skip_separators [] = omega arith
length-skip_separators (c ∷ s) = ground (arith, length-skip_separators s)

length-after_token : (s : Bytes) → length (after_token s) ≤ length s
unfolding after_token
length-after_token [] = omega arith
length-after_token (c ∷ s) = ground (arith, length-after_token s)

-- A text that begins with no separator begins with an entry.
skip_separators-token :
    (s : Bytes)
    → (skip_separators s ≡ [])
      ⊎ ((is_empty (token (skip_separators s)) ≡ false)
          × (length (after_token (skip_separators s)) < length (skip_separators s)))
unfolding skip_separators token after_token
skip_separators-token [] = inl refl
skip_separators-token (c ∷ s) = ground (arith, skip_separators-token s, length-after_token s)

-- With more fuel than bytes the loop looks at every entry.
preload_contains_from-words :
    (fuel : ℕ) (s lib : Bytes)
    → length s < fuel
    → preload_contains_from fuel s lib ≡ any_of (λ w. str_eq w lib) (words s)
unfolding preload_contains_from any_of
preload_contains_from-words zero s lib h = absurd (omega arith)
preload_contains_from-words (suc fuel) s lib h = elim (skip_separators-token s) [
  | inl done ↦ ground (arith, done, words-skip_separators s, no_words)
  | inr (some_word, shorter) ↦
      let start = skip_separators s in
      let fits : length (after_token start) < fuel = omega (arith, length-skip_separators s) in
      ground (
        arith,
        some_word,
        shorter,
        words-token start,
        words-skip_separators s,
        preload_contains_from-words fuel (after_token start) lib fits,
      )
]

-- The scan finds a library exactly when it is one of the entries between colons and white space,
-- and it ends with the text: the fuel of the model is enough.
pub preload_contains-words :
    (preload lib : Bytes)
    → preload_contains preload lib ≡ any_of (λ w. str_eq w lib) (words preload)
unfolding preload_contains
preload_contains-words preload lib =
    preload_contains_from-words (suc (length preload)) preload lib (omega arith)

-- A path that `LD_PRELOAD` can hold.
abbrev pub IsEntry : Bytes → Type 0
IsEntry lib = (is_empty lib ≡ false) × All (λ c. is_preload_separator c ≡ false) lib

segments-entry :
    (lib rest : Bytes)
    → All (λ c. is_preload_separator c ≡ false) lib
    → segments (lib ++ (b' ' ∷ rest)) ≡ (lib, words rest)
unfolding segments words
segments-entry [] rest h = ground (arith, blank_separates)
segments-entry (c ∷ lib) rest h = ground (arith, segments-entry lib rest h.1)

segments_alone :
    (lib : Bytes) → All (λ c. is_preload_separator c ≡ false) lib → segments lib ≡ (lib, [])
unfolding segments
segments_alone [] h = refl
segments_alone (c ∷ lib) h = ground (arith, segments_alone lib h.1)

-- A library that is neither empty nor holds a separator is in the new list, in front of the entries of the old one unless it was there: no
-- entry is lost and none but the library is new.
pub words-prepend_preload :
    (preload lib : Bytes)
    → IsEntry lib
    → words (prepend_preload preload lib)
      ≡ (if any_of (λ w. str_eq w lib) (words preload) then words preload else lib ∷ words preload)
unfolding prepend_preload
words-prepend_preload preload lib h = ground (
  arith,
  preload_contains-words preload lib,
  words_lem lib,
  words_lem (lib ++ (b' ' ∷ preload)),
  segments-entry lib preload h.1,
  segments_alone lib h.1,
  is_empty→nil preload,
  no_words,
)

contains-prepend_preload :
    (preload lib : Bytes) → IsEntry lib → preload_contains (prepend_preload preload lib) lib ≡ true
unfolding any_of
contains-prepend_preload preload lib h = ground (
  arith,
  preload_contains-words (prepend_preload preload lib) lib,
  words-prepend_preload preload lib h,
  str_eq_refl lib,
)

contained_stays :
    (preload lib : Bytes)
    → preload_contains preload lib ≡ true
    → prepend_preload preload lib ≡ preload
unfolding prepend_preload
contained_stays preload lib h = ground arith

-- The launcher can be nested: a library that is neither empty nor holds a separator is found once it is
-- prepended, and prepending it twice is prepending it once.
prepend_preload_idem :
    (preload lib : Bytes)
    → IsEntry lib
    → (preload_contains (prepend_preload preload lib) lib ≡ true)
      × (prepend_preload (prepend_preload preload lib) lib ≡ prepend_preload preload lib)
prepend_preload_idem preload lib h =
    let there = contains-prepend_preload preload lib h in
    (there, contained_stays (prepend_preload preload lib) lib there)
