-- ===== src/Shm/Seqlock.antt =====
-- The sequence lock: `ShmReader::read` of src/layer/shm_reader.h beside the transactions of `ShmWriter` in
-- src/daemon/shm_writer.h, step by step. `cell i` is the part of the mapped state that the `i`-th access
-- of the reader's `memcpy` reads, and `order` the accesses in the order the `memcpy` makes them.
use sigaw.Prelude.{
  ℕ, ◌+◌, ◌%◌, ◌≡◌, Bool, true, false, not, List, [], ◌∷◌, ◌++◌, ltb, ◌==◌, if◌then◌else◌,
}
use sigaw.Protocol.{SigawState, sigaw_magic, sigaw_version}
use sigaw.Shm.Writer.{bump_sequence}

-- What the reader copied: each access with what it found.
abbrev pub Copied : Type 0 → Type 0
Copied V = List (ℕ × V)

-- Where a call of `read` stands.
pub data Reader (V : Type 0) : Type 0 where
  start : Reader V
  loading : (attempt : ℕ) → Reader V
  copying : (attempt seq1 : ℕ) (left : List ℕ) (out : Copied V) → Reader V
  accepted : (last_seq : ℕ) (out : Copied V) → Reader V
  failed : Reader V

-- `seq & 1`.
abbrev pub is_odd : ℕ → Bool
is_odd n = n % 2 == 1

module _ {V : Type 0} (cell : ℕ → SigawState → V) (order : List ℕ) where
  -- One step of `read`, which sees the memory as it is then.
  unfoldable pub read_step : SigawState → Reader V → Reader V
  read_step s start =
      if not (s.header.magic == sigaw_magic)
      then failed
      else if not (s.header.version == sigaw_version)
      then failed
      else loading 0
  read_step s (loading attempt) =
      if not (ltb attempt 3)
      then failed
      else if is_odd s.header.sequence
      then loading (attempt + 1)
      else copying attempt s.header.sequence order []
  read_step s (copying attempt seq1 (i ∷ left) out) =
      copying attempt seq1 left (out ++ (i, cell i s) ∷ [])
  read_step s (copying attempt seq1 [] out) =
      if s.header.sequence == seq1 then accepted seq1 out else loading (attempt + 1)
  read_step s (accepted seq out) = accepted seq out
  read_step s failed = failed

  -- The memory, whether the writer is between `begin_write` and `end_write`, how often the sequence
  -- number was moved on, and the reader.
  pub record World : Type 0 where
    pub state : SigawState
    pub writing : Bool
    pub bumps : ℕ
    pub reader : Reader V

  -- The steps of the two processes, in any order. Between `begin_write` and `end_write` the writer may
  -- store anything anywhere but in the sequence number.
  pub data Step : World → World → Type 0 where
    begins :
        {w : World} (out_of : w.writing ≡ false)
        → Step w (record w { state = bump_sequence w.state; writing = true; bumps = w.bumps + 1 })
    stores :
        {w : World} (in_it : w.writing ≡ true) (t : SigawState)
        (kept : t.header.sequence ≡ w.state.header.sequence)
        → Step w (record w { state = t })
    ends :
        {w : World} (in_it : w.writing ≡ true)
        → Step w (record w { state = bump_sequence w.state; writing = false; bumps = w.bumps + 1 })
    reads : {w : World} → Step w (record w { reader = read_step w.state w.reader })

  -- The worlds that the two processes reach from a fresh mapping and a fresh call of `read`.
  pub data Reachable : World → Type 0 where
    fresh :
        (s : SigawState) (zeroed : s.header.sequence ≡ 0)
        → Reachable (record { state = s; writing = false; bumps = 0; reader = start })
    next : {w v : World} → Reachable w → Step w v → Reachable v
