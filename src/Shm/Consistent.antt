-- ===== src/Shm/Consistent.antt =====
-- A reader that accepts its copy has copied one state that the writer had finished.
use sigaw.Prelude.{
  ℕ, ◌+◌, ◌%◌, ◌^◌, ◌≤◌, ◌<◌, ◌≡◌, refl, ◌∙◌, false, not, List, [], ◌∷◌, ◌++◌, map, arith, ltb,
  if◌then◌else◌, subst, if_rule,
}
use mathlib.Core.List.{append_assoc, append-nil}
use sigaw.Protocol.{SigawState}
use sigaw.Shm.Writer.{bump_sequence}
use sigaw.Shm.Seqlock.{
  Copied, Reader, start, loading, copying, accepted, failed, is_odd, read_step, World, Step, begins,
  stores, ends, reads, Reachable, fresh, next,
}

module _ {V : Type 0} (cell : ℕ → SigawState → V) (order : List ℕ) where
  -- What the accesses `is` find in a state that stands still.
  unfoldable pub snapshot : SigawState → List ℕ → Copied V
  snapshot s is = map (λ i. (i, cell i s)) is

  -- What a copy in progress has is what the memory holds, as long as the sequence number that the
  -- reader loaded is the present one.
  CopyInStep : SigawState → ℕ → Reader V → Type 0
  CopyInStep s bumps (copying attempt seq1 left out) =
      (seq1 ≤ bumps) × (seq1 % 2 ≡ 0) × (bumps ≡ seq1 → out ++ snapshot s left ≡ snapshot s order)
  CopyInStep s bumps _ = Unit

  record Locked (w : World cell order) : Type 0 where
    pub counted : w.state.header.sequence ≡ w.bumps
    pub parity : w.bumps % 2 ≡ (if w.writing then 1 else 0)
    pub in_step : CopyInStep w.state w.bumps w.reader

  moved_on :
      (s t : SigawState) (bumps : ℕ) (r : Reader V)
      → CopyInStep s bumps r
      → CopyInStep t (bumps + 1) r
  unfolding CopyInStep
  moved_on s t bumps start h = tt
  moved_on s t bumps (loading a) h = tt
  moved_on s t bumps (copying a seq1 left out) (le, even, eq) =
      (omega arith, even, λ e. absurd (omega arith))
  moved_on s t bumps (accepted q out) h = tt
  moved_on s t bumps failed h = tt

  stored :
      (s t : SigawState) (bumps : ℕ) (r : Reader V)
      → bumps % 2 ≡ 1
      → CopyInStep s bumps r
      → CopyInStep t bumps r
  unfolding CopyInStep
  stored s t bumps start odd h = tt
  stored s t bumps (loading a) odd h = tt
  stored s t bumps (copying a seq1 left out) odd (le, even, eq) =
      (le, even, λ e. absurd (omega arith))
  stored s t bumps (accepted q out) odd h = tt
  stored s t bumps failed odd h = tt

  stepped :
      (s : SigawState) (bumps : ℕ) (r : Reader V)
      → s.header.sequence ≡ bumps
      → CopyInStep s bumps r
      → CopyInStep s bumps (read_step cell order s r)
  unfolding CopyInStep read_step snapshot
  stepped s bumps start e h = ground arith
  stepped s bumps (loading a) e h =
      if_rule (CopyInStep s bumps) (not (ltb a 3)) _ _ (λ _. tt)
        (λ _.
          if_rule (CopyInStep s bumps) (is_odd s.header.sequence) _ _ (λ _. tt)
            (λ even. (omega arith, ground arith, λ _. refl)))
  stepped s bumps (copying a seq1 [] out) e h = ground arith
  stepped s bumps (copying a seq1 (i ∷ left) out) e (le, even, eq) =
      (le, even, λ same. append_assoc out _ _ ∙ eq same)
  stepped s bumps (accepted q out) e h = tt
  stepped s bumps failed e h = tt

  Step-Locked :
      {w v : World cell order} → Step cell order w v → v.bumps < 2 ^ 64 → Locked w → Locked v
  unfolding bump_sequence
  Step-Locked {w = w} (begins out_of) few l = record {
    counted = omega (arith, l.counted);
    parity = ground (arith, l.parity);
    in_step = moved_on w.state _ w.bumps w.reader l.in_step;
  }
  Step-Locked {w = w} (stores in_it t kept) few l = record {
    counted = kept ∙ l.counted;
    parity = l.parity;
    in_step = stored w.state t w.bumps w.reader (ground (arith, l.parity)) l.in_step;
  }
  Step-Locked {w = w} (ends in_it) few l = record {
    counted = omega (arith, l.counted);
    parity = ground (arith, l.parity);
    in_step = moved_on w.state _ w.bumps w.reader l.in_step;
  }
  Step-Locked {w = w} reads few l = record {
    counted = l.counted;
    parity = l.parity;
    in_step = stepped w.state w.bumps w.reader l.counted l.in_step;
  }

  bumps_le : {w v : World cell order} → Step cell order w v → w.bumps ≤ v.bumps
  bumps_le (begins out_of) = omega arith
  bumps_le (stores in_it t kept) = omega arith
  bumps_le (ends in_it) = omega arith
  bumps_le reads = omega arith

  Reachable-Locked : {w : World cell order} → Reachable cell order w → w.bumps < 2 ^ 64 → Locked w
  unfolding CopyInStep
  Reachable-Locked (fresh s zeroed) few = record { counted = zeroed; parity = refl; in_step = tt }
  Reachable-Locked (next r step) few =
      Step-Locked step few (Reachable-Locked r (omega (arith, bumps_le step)))

  accepts :
      (s : SigawState) (bumps attempt seq1 last_seq : ℕ) (left : List ℕ) (out got : Copied V)
      → s.header.sequence ≡ bumps
      → CopyInStep s bumps (copying attempt seq1 left out)
      → read_step cell order s (copying attempt seq1 left out) ≡ accepted last_seq got
      → (bumps % 2 ≡ 0) × (got ≡ snapshot s order) × (last_seq ≡ s.header.sequence)
  unfolding CopyInStep read_step snapshot
  accepts s bumps attempt seq1 last_seq (i ∷ left) out got e l h = absurd (ground (arith, h))
  accepts s bumps attempt seq1 last_seq [] out got e (le, even, eq) h =
      ground (arith, h, append-nil out)

  -- However the steps of the writer and of `read` interleave: where fewer than 2 ^ 64 times the sequence
  -- number was moved on, and the step that `read` makes next accepts a copy it has in progress, no write is in
  -- progress, the copy is what every access finds in the memory at that moment, and the sequence
  -- number that `read` remembers is the present one.
  pub read_step-consistent :
      (w : World cell order)
      → Reachable cell order w
      → w.bumps < 2 ^ 64
      → (attempt seq1 last_seq : ℕ) (left : List ℕ) (out got : Copied V)
      → w.reader ≡ copying attempt seq1 left out
      → read_step cell order w.state w.reader ≡ accepted last_seq got
      → (w.writing ≡ false) × (got ≡ snapshot w.state order) × (last_seq ≡ w.state.header.sequence)
  read_step-consistent w r few attempt seq1 last_seq left out got e h =
      let l = Reachable-Locked r few in
      let (even, copy, seq) =
        accepts w.state w.bumps attempt seq1 last_seq left out got l.counted
          (subst (λ r. CopyInStep w.state w.bumps r) e l.in_step)
          (subst (λ r. read_step cell order w.state r ≡ accepted last_seq got) e h) in
      (ground (arith, l.parity), copy, seq)
