-- ===== src/Visibility/Selection.antt =====
-- The selection is a set of users in order, and prefers those who speak.
use sigaw.Prelude.{
  ℕ, zero, suc, ◌+◌, ◌<◌, ◌≡◌, ◌≢◌, refl, ◌∙◌, ap, subst, true, false, not, List, [], ◌∷◌, none,
  some, ◌⊎◌, inl, inr, arith, ◌==◌, All, length, Bool-cases, Option-cases, if_rule, Option_rule,
}
use sigaw.Protocol.{SigawState}
use sigaw.Visibility.Sorting.{In, NoRepeat}
use sigaw.Visibility.Defs.{speaks, contains, replace_last_silent, offer, offer_all}

-- A silent user is selected only if no speaker below `bound` is left out.
abbrev pub Prefers : SigawState → ℕ → List ℕ → Type 0
Prefers state bound xs =
    (i j : ℕ) → In i xs → speaks state i ≡ false → j < bound → speaks state j ≡ true → In j xs

All-lt→ne : (i : ℕ) (xs : List ℕ) → All (λ x. x < i) xs → All (λ x. x ≢ i) xs
All-lt→ne i [] a = tt
All-lt→ne i (x ∷ xs) a = (omega arith, All-lt→ne i xs a.1)

All-lt_suc : (i : ℕ) (xs : List ℕ) → All (λ x. x < i) xs → All (λ x. x < suc i) xs
All-lt_suc i [] a = tt
All-lt_suc i (x ∷ xs) a = (omega arith, All-lt_suc i xs a.1)

contains-above : (i : ℕ) (xs : List ℕ) → All (λ x. x < i) xs → contains xs i ≡ false
unfolding contains
contains-above i [] a = refl
contains-above i (x ∷ xs) a = ground (arith, contains-above i xs a.1)

module _ (state : SigawState) where
  -- What the loop has made of the indices when it has seen the users below `bound`.
  pub record IsSelection (bound count : ℕ) (xs : List ℕ) : Type 0 where
    pub sized : length xs ≡ count
    pub distinct : NoRepeat xs
    pub below : All (λ x. x < bound) xs
    pub prefers : Prefers state bound xs

  -- How a replacement changes the indices.
  record Replaced (i : ℕ) (xs ys : List ℕ) : Type 0 where
    same_length : length ys ≡ length xs
    has_new : In i ys
    has_silent : (k : ℕ) × In k xs × (speaks state k ≡ false)
    keeps : (j : ℕ) → speaks state j ≡ true → In j xs → In j ys
    old_or_new : (j : ℕ) → In j ys → (i ≡ j) ⊎ In j xs

  Replaced-cons : (i x : ℕ) (xs ys : List ℕ) → Replaced i xs ys → Replaced i (x ∷ xs) (x ∷ ys)
  Replaced-cons i x xs ys r = record {
    same_length = ap suc r.same_length;
    has_new = inr r.has_new;
    has_silent = (r.has_silent.0, inr r.has_silent.1, r.has_silent.2);
    keeps = λ j s m. elim m [ inl e ↦ inl e | inr t ↦ inr (r.keeps j s t) ];
    old_or_new = λ j m. elim m [
      | inl e ↦ inr (inl e)
      | inr t ↦ elim (r.old_or_new j t) [ inl e ↦ inl e | inr u ↦ inr (inr u) ]
    ];
  }

  Replaced-head : (i x : ℕ) (xs : List ℕ) → speaks state x ≡ false → Replaced i (x ∷ xs) (i ∷ xs)
  Replaced-head i x xs silent = record {
    same_length = refl;
    has_new = inl refl;
    has_silent = (x, inl refl, silent);
    keeps = λ j s m. elim m [ inl e ↦ absurd (ground arith) | inr t ↦ inr t ];
    old_or_new = λ j m. elim m [ inl e ↦ inl e | inr t ↦ inr (inr t) ];
  }

  All-replace_last_silent :
      (P : ℕ → Type 0) (i : ℕ) (xs ys : List ℕ)
      → replace_last_silent state i xs ≡ some ys
      → P i
      → All P xs
      → All P ys
  unfolding replace_last_silent
  All-replace_last_silent P i [] ys e p a = absurd (cc)
  All-replace_last_silent P i (x ∷ xs) ys e p a =
      elim (Option-cases (replace_last_silent state i xs)) [
        | inl none_there ↦ let same : ys ≡ i ∷ xs = ground arith in rw same (p, a.1)
        | inr (zs, found) ↦
            let same : ys ≡ x ∷ zs = ground arith in
            rw same (a.0, All-replace_last_silent P i xs zs found p a.1)
      ]

  NoRepeat-replace_last_silent :
      (i : ℕ) (xs ys : List ℕ)
      → replace_last_silent state i xs ≡ some ys
      → All (λ x. x < i) xs
      → NoRepeat xs
      → NoRepeat ys
  unfolding replace_last_silent
  NoRepeat-replace_last_silent i [] ys e b d = absurd (cc)
  NoRepeat-replace_last_silent i (x ∷ xs) ys e b d =
      elim (Option-cases (replace_last_silent state i xs)) [
        | inl none_there ↦
            let same : ys ≡ i ∷ xs = ground arith in rw same (All-lt→ne i xs b.1, d.1)
        | inr (zs, found) ↦
            let same : ys ≡ x ∷ zs = ground arith in
            rw same (
              All-replace_last_silent (λ y. y ≢ x) i xs zs found (ground arith) d.0,
              NoRepeat-replace_last_silent i xs zs found b.1 d.1,
            )
      ]

  replace_last_silent-Replaced :
      (i : ℕ) (xs ys : List ℕ) → replace_last_silent state i xs ≡ some ys → Replaced i xs ys
  unfolding replace_last_silent
  replace_last_silent-Replaced i [] ys e = absurd (cc)
  replace_last_silent-Replaced i (x ∷ xs) ys e =
      elim (Option-cases (replace_last_silent state i xs)) [
        | inl none_there ↦
            let same : ys ≡ i ∷ xs = ground arith in rw same (Replaced-head i x xs (ground arith))
        | inr (zs, found) ↦
            let same : ys ≡ x ∷ zs = ground arith in
            rw same (Replaced-cons i x xs zs (replace_last_silent-Replaced i xs zs found))
      ]

  -- No slot is found only when every selected user speaks.
  replace_last_silent-none :
      (i j : ℕ) (xs : List ℕ)
      → replace_last_silent state i xs ≡ none
      → In j xs
      → speaks state j ≡ true
  unfolding replace_last_silent
  replace_last_silent-none i j [] e m = absurd m
  replace_last_silent-none i j (x ∷ xs) e (inl h) = ground arith
  replace_last_silent-none i j (x ∷ xs) e (inr m) = replace_last_silent-none i j xs (ground arith) m

  -- The user `i` is silent: nothing changes.
  IsSelection-silent :
      (i count : ℕ) (xs : List ℕ)
      → speaks state i ≡ false
      → IsSelection i count xs
      → IsSelection (suc i) count xs
  IsSelection-silent i count xs silent s = record {
    sized = s.sized;
    distinct = s.distinct;
    below = All-lt_suc i xs s.below;
    prefers = λ a j m quiet lt talks.
        s.prefers a j m quiet
          (elim (Bool-cases (j == i)) [
            | inl e ↦
                let same : j ≡ i = ground arith in
                absurd (let clash : speaks state i ≡ true = rw same at talks in cc)
            | inr e ↦ ground arith
          ])
          talks;
  }

  -- Every selected user speaks: nothing changes.
  IsSelection-full :
      (i count : ℕ) (xs : List ℕ)
      → replace_last_silent state i xs ≡ none
      → IsSelection i count xs
      → IsSelection (suc i) count xs
  IsSelection-full i count xs full s = record {
    sized = s.sized;
    distinct = s.distinct;
    below = All-lt_suc i xs s.below;
    prefers =
        λ a j m quiet lt talks. absurd (let clash = replace_last_silent-none i a xs full m in cc);
  }

  IsSelection-replaced :
      (i count : ℕ) (xs ys : List ℕ)
      → speaks state i ≡ true
      → replace_last_silent state i xs ≡ some ys
      → IsSelection i count xs
      → IsSelection (suc i) count ys
  IsSelection-replaced i count xs ys talks e s =
      let r = replace_last_silent-Replaced i xs ys e in
      record {
        sized = r.same_length ∙ s.sized;
        distinct = NoRepeat-replace_last_silent i xs ys e s.below s.distinct;
        below =
            All-replace_last_silent (λ x. x < suc i) i xs ys e (omega arith)
              (All-lt_suc i xs s.below);
        prefers = λ a j m quiet lt speaker. elim (Bool-cases (j == i)) [
          | inl same ↦ subst (λ k. In k ys) (ground arith) r.has_new
          | inr other ↦
              r.keeps j speaker
                (s.prefers r.has_silent.0 j r.has_silent.1 r.has_silent.2 (ground arith) speaker)
        ];
      }

  offer-IsSelection :
      (i count : ℕ) (xs : List ℕ)
      → IsSelection i count xs
      → IsSelection (suc i) count (offer state i xs)
  unfolding offer
  offer-IsSelection i count xs s =
      let P = IsSelection (suc i) count in
      if_rule P (not (speaks state i)) _ _ (λ quiet. IsSelection-silent i count xs (ground arith) s)
        λ talks.
          if_rule P (contains xs i) _ _
            (λ there. absurd (let absent = contains-above i xs s.below in cc))
            λ _.
              Option_rule P (replace_last_silent state i xs) _ _
                (λ full. IsSelection-full i count xs full s)
                λ ys e. IsSelection-replaced i count xs ys (ground arith) e s

  pub offer_all-IsSelection :
      (i n count : ℕ) (xs : List ℕ)
      → IsSelection i count xs
      → IsSelection (i + n) count (offer_all state i n xs)
  unfolding offer_all
  offer_all-IsSelection i zero count xs s = subst (λ k. IsSelection k count xs) (omega arith) s
  offer_all-IsSelection i (suc n) count xs s =
      subst (λ k. IsSelection k count (offer_all state (suc i) n (offer state i xs))) (omega arith)
        (offer_all-IsSelection (suc i) n count (offer state i xs) (offer-IsSelection i count xs s))
