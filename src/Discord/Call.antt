-- ===== src/Discord/Call.antt =====
-- Calls on a connection that may wait: a call returns a value and the new state, or has not returned yet.
use sigaw.Prelude.{Option, none, some}

abbrev pub Call : Type 0 → Type 0 → Type 0
Call S A = S → Option (A × S)

module _ {S : Type 0} where
  abbrev pub pure : {A : Type 0} → A → Call S A
  pure a s = some (a, s)

  module _ {A B : Type 0} where
    -- What becomes of a call's end.
    abbrev pub and_then : Option (A × S) → (A → Call S B) → Option (B × S)
    and_then none k = none
    and_then (some (a, s)) k = k a s

    infixl 5 ◌>>=◌ ◌>>◌
    abbrev pub ◌>>=◌ : Call S A → (A → Call S B) → Call S B
    m >>= k = λ s. and_then (m s) k

    abbrev pub ◌>>◌ : Call S A → Call S B → Call S B
    m >> n = m >>= λ _. n

  -- A change of the state.
  abbrev pub modify : (S → S) → Call S (Unit {0})
  modify f s = some (tt, f s)

  -- What holds at the end of a call, of its value and of the state.
  abbrev pub Ends : {A : Type 0} → (A → S → Type 0) → Option (A × S) → Type 0
  Ends Q none = Unit
  Ends Q (some (a, s)) = Q a s

  module _ {A B : Type 0} where
    -- The end of a call and what follows it.
    pub Ends-bind :
        (Q : A → S → Type 0) (R : B → S → Type 0) (o : Option (A × S)) (k : A → Call S B)
        → Ends Q o
        → ((a : A) (s : S) → Q a s → Ends R (k a s))
        → Ends R (and_then o k)
    Ends-bind Q R none k h next = tt
    Ends-bind Q R (some (a, s)) k h next = next a s h

  pub Ends-mono :
      {A : Type 0} (Q R : A → S → Type 0) (o : Option (A × S))
      → ((a : A) (s : S) → Q a s → R a s)
      → Ends Q o
      → Ends R o
  Ends-mono Q R none f h = tt
  Ends-mono Q R (some (a, s)) f h = f a s h
