-- ===== src/Socket/Transfer.antt =====
-- What `read_all` and `write_all` achieve, however the kernel cuts the stream.
use sigaw.Prelude.{
  ℕ, zero, suc, ◌+◌, ◌-◌, ◌≤◌, ◌<◌, min, ◌≡◌, refl, sym, ◌∙◌, ap, subst, Bool, true, List, [], ◌∷◌,
  ◌++◌, some, arith, ◌==◌, Bytes, length, take, drop, All, if_rule, length-drop,
}
use mathlib.Core.List.{append_assoc, append-nil}
use sigaw.Socket.Defs.{Socket, read_loop, read_all, write_loop, write_all}

take-drop : (r n : ℕ) (xs : Bytes) → r ≤ n → take r xs ++ take (n - r) (drop r xs) ≡ take n xs
take-drop zero n xs h = let e : n - 0 ≡ n = omega arith in rw e refl
take-drop (suc r) zero xs h = absurd (omega arith)
take-drop (suc r) (suc n) [] h =
    let e : suc n - suc r ≡ n - r = omega arith in rw e (take-nil (n - r))
  where
    take-nil : (k : ℕ) → take {A = ℕ} k [] ≡ []
    take-nil zero = refl
    take-nil (suc k) = refl
take-drop (suc r) (suc n) (x ∷ xs) h =
    let e : suc n - suc r ≡ n - r = omega arith in
    rw e (ap (◌∷◌ x) (take-drop r n xs (omega arith)))

drop-drop : (r n : ℕ) (xs : Bytes) → r ≤ n → drop (n - r) (drop r xs) ≡ drop n xs
drop-drop zero n xs h = let e : n - 0 ≡ n = omega arith in rw e refl
drop-drop (suc r) zero xs h = absurd (omega arith)
drop-drop (suc r) (suc n) [] h = drop-nil (suc n - suc r)
  where
    drop-nil : (k : ℕ) → drop {A = ℕ} k [] ≡ []
    drop-nil zero = refl
    drop-nil (suc k) = refl
drop-drop (suc r) (suc n) (x ∷ xs) h =
    let e : suc n - suc r ≡ n - r = omega arith in rw e (drop-drop r n xs (omega arith))

-- Every grant is of a byte at least, and there is one for each of `n` bytes.
abbrev pub Live : List ℕ → Type 0
Live grants = All (λ k. 0 < k) grants

-- With `n` bytes there and a grant for each, the loop reads them, and uses at most `n` grants.
read_loop-all :
    (reads : List ℕ) (incoming : Bytes) (n : ℕ)
    → Live reads
    → n ≤ length reads
    → n ≤ length incoming
    → (left : List ℕ) × (read_loop reads incoming n
        ≡ (some (take n incoming), left, drop n incoming))
      × Live left
      × (length reads ≤ length left + n)
unfolding read_loop
read_loop-all reads incoming zero live grants there = (reads, refl, live, omega arith)
read_loop-all [] incoming (suc n) live grants there = absurd (omega arith)
read_loop-all (k ∷ reads) incoming (suc n) live grants there =
    let r = min k (min (suc n) (length incoming)) in
    let positive : 0 < r = omega (arith, live.0) in
    let (left, e, live', used) =
      read_loop-all reads (drop r incoming) (suc n - r) live.1 (omega arith)
        (omega (arith, length-drop r incoming)) in
    (
      left,
      if_rule (λ o. o ≡ (some (take (suc n) incoming), left, drop (suc n) incoming)) (r == 0) _ _
          (λ none_granted. absurd (ground (arith, none_granted, positive)))
          (λ _. rw e (
            rw
              (
                take-drop r (suc n) incoming (omega arith),
                drop-drop r (suc n) incoming (omega arith),
              )
              refl)),
      live',
      omega arith,
    )

append-take : (w : ℕ) (buf : Bytes) → take w buf ++ drop w buf ≡ buf
append-take zero buf = refl
append-take (suc w) [] = refl
append-take (suc w) (c ∷ buf) = ap (◌∷◌ c) (append-take w buf)

-- What was sent is a front part of the buffer, and all of it where the loop says so.
write_loop-prefix :
    (writes : List ℕ) (buf : Bytes)
    → let (done, left, sent) = write_loop writes buf in
      (rest : Bytes) × (sent ++ rest ≡ buf) × (done ≡ true → rest ≡ [])
unfolding write_loop
write_loop-prefix writes [] = ([], refl, λ _. refl)
write_loop-prefix [] (c ∷ buf) = (c ∷ buf, refl, λ e. absurd (ground (arith, e)))
write_loop-prefix (k ∷ writes) (c ∷ buf) =
    let w = min k (length (c ∷ buf)) in
    let (rest, e, all) = write_loop-prefix writes (drop w (c ∷ buf)) in
    if_rule
      (λ (o : Bool × List ℕ × Bytes).
        (rest : Bytes) × (o.2 ++ rest ≡ c ∷ buf) × (o.0 ≡ true → rest ≡ []))
      (w == 0) _ _ (λ _. (c ∷ buf, refl, λ e. absurd (ground (arith, e))))
      (λ _. (rest, append_assoc (take w (c ∷ buf)) _ rest ∙ rw e (append-take w (c ∷ buf)), all))

-- With a grant for each byte, the loop sends the buffer.
write_loop-all :
    (writes : List ℕ) (buf : Bytes)
    → Live writes
    → length buf ≤ length writes
    → ((write_loop writes buf).0 ≡ true) × Live (write_loop writes buf).1
unfolding write_loop
write_loop-all writes [] live grants = (refl, live)
write_loop-all [] (c ∷ buf) live grants = absurd (omega arith)
write_loop-all (k ∷ writes) (c ∷ buf) live grants =
    let w = min k (length (c ∷ buf)) in
    let positive : 0 < w = omega (arith, live.0) in
    if_rule (λ (o : Bool × List ℕ × Bytes). (o.0 ≡ true) × Live o.1) (w == 0) _ _
      (λ e. absurd (ground (arith, e, positive)))
      (λ _.
        write_loop-all writes (drop w (c ∷ buf)) live.1 (omega (arith, length-drop w (c ∷ buf))))

pub write_all-prefix :
    (buf : Bytes) (s : Socket)
    → let (done, t) = write_all buf s in
      (sent rest : Bytes) × (sent ++ rest ≡ buf)
      × (t.outgoing ≡ s.outgoing ++ sent)
      × (done ≡ true → sent ≡ buf)
      × (Live s.writes → length buf ≤ length s.writes → done ≡ true)
unfolding write_all
write_all-prefix buf s =
    let (rest, e, all) = write_loop-prefix s.writes buf in
    let sent = (write_loop s.writes buf).2 in
    (
      sent,
      rest,
      e,
      refl,
      λ done. sym (append-nil sent) ∙ subst (λ r. sent ++ r ≡ buf) (all done) e,
      λ live grants. (write_loop-all s.writes buf live grants).0,
    )

-- `read_all` of `n` bytes that are there takes them off the stream, however many the calls of `read` grant.
pub read_all-take :
    (n : ℕ) (s : Socket)
    → Live s.reads
    → n ≤ length s.reads
    → n ≤ length s.incoming
    → (t : Socket) × (read_all n s ≡ (some (take n s.incoming), t))
      × (t.incoming ≡ drop n s.incoming)
      × Live t.reads
      × (length s.reads ≤ length t.reads + n)
      × (t.outgoing ≡ s.outgoing)
unfolding read_all
read_all-take n s live grants there =
    let (left, e, live', used) = read_loop-all s.reads s.incoming n live grants there in
    (record s { reads = left; incoming = drop n s.incoming }, rw e refl, refl, live', used, refl)
