-- ===== src/Config/Sections.antt =====
-- The sections and the entries in the lines of a configuration file, and what the scan of
-- src/common/config.h finds of them.
use sigaw.Prelude.{
  ℕ, suc, ◌+◌, ◌≡◌, ◌≢◌, refl, sym, ◌∙◌, ap, subst, Bool, true, false, not, ◌&&◌, List, [], ◌∷◌,
  ◌++◌, Option, none, some, arith, if◌then◌else◌, Bytes, str_eq, length, any_of, map, if_rule,
  Option_rule, keep_if,
}
use mathlib.Core.List.{append_assoc, append-nil}
use sigaw.Config.Text.{
  trim_copy, parse_key_value, parse_section_header, section_of, is_bracketed, global, profile,
  other,
}
use sigaw.Config.File.{is_skipped}
use sigaw.Config.Save.{is_known_global_key, Scan, scan_line, scan_from}

unfoldable pub is_some : {A : Type 0} → Option A → Bool
is_some none = false
is_some (some a) = true

-- A line that begins a section.
unfoldable pub is_header : Bytes → Bool
unfolding is_some
is_header line =
    not (is_skipped (trim_copy line)) && is_some (parse_section_header (trim_copy line))

abbrev pub known_key : Option (Bytes × Bytes) → Option Bytes
known_key none = none
known_key (some (key, value)) = if is_known_global_key key then some key else none

-- The known key that a line has an entry for.
abbrev pub key_in : Bytes → Option Bytes
key_in line =
    if is_skipped (trim_copy line) then none else known_key (parse_key_value (trim_copy line))

-- The lines in front of the first section, and from its header on.
unfoldable pub before_section : List Bytes → List Bytes × List Bytes
before_section [] = ([], [])
before_section (line ∷ lines) =
    let (front, back) = before_section lines in
    if is_header line then ([], line ∷ lines) else (line ∷ front, back)

-- The line that the entries have for a key.
unfoldable pub text_for : List (Bytes × Bytes) → Option Bytes → Bytes → Bytes
text_for [] key line = line
text_for (e ∷ es) none line = text_for es none line
text_for (e ∷ es) (some key) line = text_for es (some key) (if str_eq key e.0 then e.1 else line)

abbrev pub has_key : Bytes → Option Bytes → Bool
has_key key none = false
has_key key (some k) = str_eq k key

-- The entries whose key no line has.
unfoldable pub absent : List (Bytes × Bytes) → List Bytes → List Bytes
absent es front =
    map (λ e. e.1) (keep_if (λ e. not (any_of (λ line. has_key e.0 (key_in line)) front)) es)

-- The indices of the keys.
unfoldable pub positions : ℕ → List (Option Bytes) → List (Bytes × ℕ)
positions n [] = []
positions n (none ∷ ks) = positions (suc n) ks
positions n (some k ∷ ks) = (k, n) ∷ positions (suc n) ks

pub before_section-append :
    (lines : List Bytes) → let (front, back) = before_section lines in lines ≡ front ++ back
unfolding before_section
before_section-append [] = refl
before_section-append (line ∷ lines) =
    if_rule (λ (o : List Bytes × List Bytes). line ∷ lines ≡ o.0 ++ o.1) (is_header line) _ _
      (λ _. refl) (λ _. ap (◌∷◌ line) (before_section-append lines))

OptionAll : {A : Type 0} → (A → Type 0) → Option A → Type 0
OptionAll P none = Unit
OptionAll P (some a) = P a

-- A section never is the global one.
section_of-kind : (name : Bytes) → (section_of name).kind ≢ global
unfolding section_of
section_of-kind name = λ e. absurd (ground (arith, e))

parse_section_header-kind :
    (line : Bytes) → OptionAll (λ c. c.kind ≢ global) (parse_section_header line)
unfolding parse_section_header OptionAll
parse_section_header-kind line =
    if_rule (OptionAll (λ c. c.kind ≢ global)) (is_bracketed (trim_copy line)) _ _
      (λ _. section_of-kind _) (λ _. tt)

-- Behind a section header nothing is found.
Behind : Scan → ℕ → Scan → Type 0
Behind s j t =
    (t.section.kind ≢ global) × (t.key_lines ≡ s.key_lines) × (t.first_section_line ≡ some j)

scan_line-Behind :
    (i j : ℕ) (line : Bytes) (s : Scan)
    → s.section.kind ≢ global
    → s.first_section_line ≡ some j
    → Behind s j (scan_line i line s)
unfolding scan_line Behind OptionAll
scan_line-Behind i j line s ne e =
    let t = trim_copy line in
    let kinds = parse_section_header-kind t in
    if_rule (Behind s j) (is_skipped t) _ _ (λ _. (ne, refl, e))
      (λ _.
        Option_rule (Behind s j) (parse_section_header t) _ _
          (λ _.
            elim s.section.kind
                as (λ k.
                  k ≢ global
                  → Behind s j (elim k as (λ _. Scan) [
                    | global ↦ elim (parse_key_value t) as (λ _. Scan) [
                      | none ↦ s
                      | some entry ↦
                          if is_known_global_key entry.0
                          then record s { key_lines = s.key_lines ++ ((entry.0, i) ∷ []) }
                          else s
                    ]
                    | profile ↦ s
                    | other ↦ s
                  ])) [
                    | global ↦ λ no. absurd (no refl)
                    | profile ↦ λ _. (ne, refl, e)
                    | other ↦ λ _. (ne, refl, e)
                  ]
              ne)
          (λ c found. (subst (OptionAll (λ c. c.kind ≢ global)) found kinds, refl, rw e refl)))

scan_from-behind :
    (lines : List Bytes) (i j : ℕ) (s : Scan)
    → s.section.kind ≢ global
    → s.first_section_line ≡ some j
    → ((scan_from i lines s).key_lines ≡ s.key_lines)
      × ((scan_from i lines s).first_section_line ≡ some j)
unfolding scan_from Behind
scan_from-behind [] i j s ne e = (refl, e)
scan_from-behind (line ∷ lines) i j s ne e =
    let (ne', same, e') = scan_line-Behind i j line s ne e in
    let (keys, first) = scan_from-behind lines (suc i) j (scan_line i line s) ne' e' in
    (keys ∙ same, first)

-- A section header ends the global part.
scan_line-header :
    (i : ℕ) (line : Bytes) (s : Scan)
    → is_header line ≡ true
    → s.first_section_line ≡ none
    → Behind s i (scan_line i line s)
unfolding scan_line is_header is_some Behind OptionAll
scan_line-header i line s h e =
    let t = trim_copy line in
    let kinds = parse_section_header-kind t in
    if_rule (Behind s i) (is_skipped t) _ _ (λ skip. absurd (ground (arith, h, skip)))
      (λ _.
        Option_rule (Behind s i) (parse_section_header t) _ _
          (λ none. absurd (ground (arith, h, none)))
          (λ c found. (subst (OptionAll (λ c. c.kind ≢ global)) found kinds, refl, rw e refl)))

-- A line of the global part adds its key.
scan_line-global :
    (i : ℕ) (line : Bytes) (s : Scan)
    → is_header line ≡ false
    → s.section.kind ≡ global
    → scan_line i line s ≡ record s { key_lines = s.key_lines ++ positions i (key_in line ∷ []) }
unfolding scan_line is_header is_some positions
scan_line-global i line s h e =
    let t = trim_copy line in ground (arith, h, e, append-nil s.key_lines)

positions-append :
    (n : ℕ) (k : Option Bytes) (ks : List (Option Bytes))
    → positions n (k ∷ ks) ≡ positions n (k ∷ []) ++ positions (suc n) ks
unfolding positions
positions-append n none ks = refl
positions-append n (some k) ks = refl

-- What the scan finds: the keys in front of the first section, and its line.
unfoldable pub Found : ℕ → List (Bytes × ℕ) → List Bytes × List Bytes → Scan → Type 0
Found i keys (front, []) t =
    (t.key_lines ≡ keys ++ positions i (map key_in front)) × (t.first_section_line ≡ none)
Found i keys (front, line ∷ back) t =
    (t.key_lines ≡ keys ++ positions i (map key_in front))
    × (t.first_section_line ≡ some (i + length front))

Found-line :
    (i : ℕ) (keys : List (Bytes × ℕ)) (line : Bytes) (front back : List Bytes) (t : Scan)
    → Found (suc i) (keys ++ positions i (key_in line ∷ [])) (front, back) t
    → Found i keys (line ∷ front, back) t
unfolding Found
Found-line i keys line front [] t (k, f) = (
  k
      ∙ append_assoc keys _ _
      ∙ ap (λ x. keys ++ x) (sym (positions-append i (key_in line) (map key_in front))),
  f,
)
Found-line i keys line front (b ∷ back) t (k, f) = (
  k
      ∙ append_assoc keys _ _
      ∙ ap (λ x. keys ++ x) (sym (positions-append i (key_in line) (map key_in front))),
  f ∙ ap some (omega arith),
)

pub scan_from-Found :
    (lines : List Bytes) (i : ℕ) (s : Scan)
    → s.section.kind ≡ global
    → s.first_section_line ≡ none
    → Found i s.key_lines (before_section lines) (scan_from i lines s)
unfolding scan_from Found before_section positions Behind
scan_from-Found [] i s e f = (sym (append-nil s.key_lines), f)
scan_from-Found (line ∷ lines) i s e f =
    let next = scan_line i line s in
    let (front, back) = before_section lines in
    if_rule (λ o. Found i s.key_lines o (scan_from (suc i) lines next)) (is_header line) _ _
      (λ h.
        let (ne, same, first) = scan_line-header i line s h f in
        let (keys, kept) = scan_from-behind lines (suc i) i next ne first in
        (keys ∙ same ∙ sym (append-nil s.key_lines), kept ∙ ap some (omega arith)))
      (λ no.
        let step = scan_line-global i line s no e in
        let rest =
          subst (λ t. Found (suc i) t.key_lines (before_section lines) (scan_from (suc i) lines t))
            (sym step)
            (scan_from-Found lines (suc i)
              (record s { key_lines = s.key_lines ++ positions i (key_in line ∷ []) }) e f) in
        Found-line i s.key_lines line front back (scan_from (suc i) lines next) (
          subst
            (λ (t : Scan). Found (suc i) t.key_lines (front, back) (scan_from (suc i) lines next))
            step rest))
