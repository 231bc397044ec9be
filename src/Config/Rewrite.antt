-- ===== src/Config/Rewrite.antt =====
-- A save to a file that exists, from the section headers and the entries in its lines.
use sigaw.Prelude.{
  ℕ, suc, ◌≡◌, refl, sym, ◌∙◌, ap, ◌||◌, List, [], ◌∷◌, ◌++◌, Option, none, some, arith,
  if◌then◌else◌, Bytes, str_eq, set, length, length-append, take, drop, any_of, map, if_rule,
  keep_if,
}
use mathlib.Core.List.{append_assoc, append-nil}
use sigaw.Config.Types.{FloatLib, Config}
use sigaw.Config.Text.{first_section}
use sigaw.Config.Save.{
  Scan, scan_lines, serialized_global_entries, missing_entries, update_existing_file, set_key_lines,
  rewrite_lines,
}
use sigaw.Config.Sections.{
  before_section, before_section-append, key_in, text_for, has_key, absent, positions, Found,
  scan_from-Found,
}

-- The lines of one key replaced.
unfoldable renew_at : Bytes → Bytes → List (Option Bytes) → List Bytes → List Bytes
renew_at key text [] ys = ys
renew_at key text (k ∷ ks) [] = []
renew_at key text (k ∷ ks) (y ∷ ys) = (if has_key key k then text else y) ∷ renew_at key text ks ys

length-renew_at :
    (key text : Bytes) (ks : List (Option Bytes)) (ys : List Bytes)
    → length (renew_at key text ks ys) ≡ length ys
unfolding renew_at
length-renew_at key text [] ys = refl
length-renew_at key text (k ∷ ks) [] = refl
length-renew_at key text (k ∷ ks) (y ∷ ys) = ap suc (length-renew_at key text ks ys)

set-append :
    (pre ys : List Bytes) (y v : Bytes) → set (pre ++ y ∷ ys) (length pre) v ≡ pre ++ v ∷ ys
set-append [] ys y v = refl
set-append (x ∷ pre) ys y v = ap (◌∷◌ x) (set-append pre ys y v)

set_key_lines-renew_at :
    (key text : Bytes) (ks : List (Option Bytes)) (pre ys back : List Bytes) (n : ℕ)
    → n ≡ length pre
    → length ks ≡ length ys
    → set_key_lines key text (positions n ks) (pre ++ (ys ++ back))
      ≡ pre ++ (renew_at key text ks ys ++ back)
unfolding set_key_lines positions renew_at
set_key_lines-renew_at key text [] pre ys back n at same = refl
set_key_lines-renew_at key text (k ∷ ks) pre [] back n at same = absurd (omega (arith, same))
set_key_lines-renew_at key text (none ∷ ks) pre (y ∷ ys) back n at same =
    let keys = positions (suc n) ks in
    let size : suc n ≡ length (pre ++ y ∷ []) = omega (arith, at, length-append pre (y ∷ [])) in
    ap (set_key_lines key text keys) (sym (append_assoc pre (y ∷ []) (ys ++ back)))
    ∙ set_key_lines-renew_at key text ks (pre ++ y ∷ []) ys back (suc n) size (omega (arith, same))
    ∙ append_assoc pre (y ∷ []) (renew_at key text ks ys ++ back)
set_key_lines-renew_at key text (some k ∷ ks) pre (y ∷ ys) back n at same =
    let keys = positions (suc n) ks in
    let z = if str_eq k key then text else y in
    let size : suc n ≡ length (pre ++ z ∷ []) = omega (arith, at, length-append pre (z ∷ [])) in
    let now : (if str_eq k key
          then set (pre ++ y ∷ (ys ++ back)) n text
          else pre ++ y ∷ (ys ++ back))
        ≡ (pre ++ z ∷ []) ++ (ys ++ back) =
      sym (
        append_assoc pre (z ∷ []) (ys ++ back)
        ∙ if_rule
            (λ x. pre ++ x ∷ (ys ++ back) ≡ (
              if str_eq k key
              then set (pre ++ y ∷ (ys ++ back)) n text
              else pre ++ y ∷ (ys ++ back)))
            (str_eq k key) _ _ (λ e. rw (e, at) (sym (set-append pre (ys ++ back) y text)))
            (λ e. rw e refl)) in
    ap (set_key_lines key text keys) now
    ∙ set_key_lines-renew_at key text ks (pre ++ z ∷ []) ys back (suc n) size (omega (arith, same))
    ∙ append_assoc pre (z ∷ []) (renew_at key text ks ys ++ back)

-- The lines of all keys replaced, one key after the other.
unfoldable renew_all : List (Bytes × Bytes) → List (Option Bytes) → List Bytes → List Bytes
renew_all [] ks ys = ys
renew_all (e ∷ es) ks ys = renew_all es ks (renew_at e.0 e.1 ks ys)

rewrite_lines-renew_all :
    (es : List (Bytes × Bytes)) (ks : List (Option Bytes)) (ys back : List Bytes)
    → length ks ≡ length ys
    → rewrite_lines es (positions 0 ks) (ys ++ back) ≡ renew_all es ks ys ++ back
unfolding rewrite_lines renew_all
rewrite_lines-renew_all [] ks ys back same = refl
rewrite_lines-renew_all (e ∷ es) ks ys back same =
    let next = renew_at e.0 e.1 ks ys in
    ap (rewrite_lines es (positions 0 ks))
      (set_key_lines-renew_at e.0 e.1 ks [] ys back 0 refl same)
    ∙ rewrite_lines-renew_all es ks next back (same ∙ sym (length-renew_at e.0 e.1 ks ys))

renew_all-text_for :
    (es : List (Bytes × Bytes)) (k : Option Bytes) (ks : List (Option Bytes)) (y : Bytes)
    (ys : List Bytes)
    → renew_all es (k ∷ ks) (y ∷ ys) ≡ text_for es k y ∷ renew_all es ks ys
unfolding renew_all renew_at text_for
renew_all-text_for [] k ks y ys = refl
renew_all-text_for (e ∷ es) none ks y ys = renew_all-text_for es none ks y (renew_at e.0 e.1 ks ys)
renew_all-text_for (e ∷ es) (some k) ks y ys =
    renew_all-text_for es (some k) ks (if str_eq k e.0 then e.1 else y) (renew_at e.0 e.1 ks ys)

-- A line with the entry of its key in its place.
abbrev pub renewed : List (Bytes × Bytes) → Bytes → Bytes
renewed es line = text_for es (key_in line) line

renew_all-nil : (es : List (Bytes × Bytes)) → renew_all es [] [] ≡ []
unfolding renew_all renew_at
renew_all-nil [] = refl
renew_all-nil (e ∷ es) = renew_all-nil es

renew_all-renewed :
    (es : List (Bytes × Bytes)) (front : List Bytes)
    → renew_all es (map key_in front) front ≡ map (renewed es) front
renew_all-renewed es [] = renew_all-nil es
renew_all-renewed es (line ∷ front) =
    renew_all-text_for es (key_in line) (map key_in front) line front
    ∙ ap (◌∷◌ (renewed es line)) (renew_all-renewed es front)

Option_both :
    {A : Type 0} (P : Option A → Type 0) (o : Option A) → P none → ((a : A) → P (some a)) → P o
Option_both P none h k = h
Option_both P (some a) h k = k a

any_of-positions :
    (key : Bytes) (n : ℕ) (front : List Bytes)
    → any_of (λ k. str_eq k.0 key) (positions n (map key_in front))
      ≡ any_of (λ line. has_key key (key_in line)) front
unfolding any_of positions
any_of-positions key n [] = refl
any_of-positions key n (line ∷ front) =
    let rest = any_of-positions key (suc n) front in
    Option_both
      (λ k.
        any_of (λ k. str_eq k.0 key) (positions n (k ∷ map key_in front))
        ≡ (has_key key k || any_of (λ line. has_key key (key_in line)) front))
      (key_in line) rest (λ k. ap (λ b. str_eq k key || b) rest)

missing_entries-absent :
    (es : List (Bytes × Bytes)) (front : List Bytes)
    → missing_entries es (positions 0 (map key_in front)) ≡ absent es front
unfolding missing_entries absent keep_if
missing_entries-absent [] front = refl
missing_entries-absent (e ∷ es) front =
    ground (arith, any_of-positions e.0 0 front, missing_entries-absent es front)

length-map : {A B : Type 0} (f : A → B) (xs : List A) → length (map f xs) ≡ length xs
length-map f [] = refl
length-map f (x ∷ xs) = ap suc (length-map f xs)

take-length : (xs ys : List Bytes) → take (length xs) (xs ++ ys) ≡ xs
take-length [] ys = refl
take-length (x ∷ xs) ys = ap (◌∷◌ x) (take-length xs ys)

drop-length : (xs ys : List Bytes) → drop (length xs) (xs ++ ys) ≡ ys
drop-length [] ys = refl
drop-length (x ∷ xs) ys = drop-length xs ys

-- Where the missing entries go.
unfoldable insert_at : List Bytes → Option ℕ → ℕ
insert_at lines none = length lines
insert_at lines (some i) = i

Found-insert_at :
    (front back : List Bytes) (t : Scan)
    → Found 0 [] (front, back) t
    → (t.key_lines ≡ positions 0 (map key_in front))
      × (insert_at (front ++ back) t.first_section_line ≡ length front)
unfolding Found insert_at
Found-insert_at front [] t (k, f) = (k, rw f (ap length (append-nil front)))
Found-insert_at front (b ∷ back) t (k, f) = (k, rw f (omega arith))

-- A save to a file that exists, whatever its lines are: in front of the first section, each line with an entry of
-- a known key becomes the line of that key in the configuration, and every other line stays; behind these
-- come the lines of the keys that no line in front of the first section has, in their order; and behind them the
-- first section and all that follows, as it was.
pub update_existing_file-renewed :
    (FL : FloatLib) (c : Config FL) (lines : List Bytes)
    → let es = serialized_global_entries FL c in
      let (front, back) = before_section lines in
      update_existing_file FL c lines ≡ map (renewed es) front ++ (absent es front ++ back)
unfolding update_existing_file scan_lines insert_at first_section
update_existing_file-renewed FL c lines =
    let es = serialized_global_entries FL c in
    let (front, back) = before_section lines in
    let t = scan_lines lines in
    let whole = before_section-append lines in
    let found =
      scan_from-Found lines 0
        (record { section = first_section; key_lines = []; first_section_line = none }) refl refl in
    let (keys, at) = Found-insert_at front back t found in
    let rewritten : rewrite_lines es t.key_lines lines ≡ map (renewed es) front ++ back =
      ap (rewrite_lines es t.key_lines) whole
      ∙ ap (λ ks. rewrite_lines es ks (front ++ back)) keys
      ∙ rewrite_lines-renew_all es (map key_in front) front back (length-map key_in front)
      ∙ ap (λ xs. xs ++ back) (renew_all-renewed es front) in
    let missing : missing_entries es t.key_lines ≡ absent es front =
      ap (missing_entries es) keys ∙ missing_entries-absent es front in
    let place : insert_at lines t.first_section_line ≡ length (map (renewed es) front) =
      ap (λ xs. insert_at xs t.first_section_line) whole
      ∙ at
      ∙ sym (length-map (renewed es) front) in
    let new = map (renewed es) front in
    let put : update_existing_file FL c lines
        ≡ take (length new) (new ++ back) ++ (absent es front ++ drop (length new) (new ++ back)) =
      λ i. take (place i) (rewritten i) ++ (missing i ++ drop (place i) (rewritten i)) in
    put ∙ (λ i. take-length new back i ++ (absent es front ++ drop-length new back i))
