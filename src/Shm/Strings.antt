-- ===== src/Shm/Strings.antt =====
-- C strings in fixed arrays: `strlen`, `strncpy` and `memcpy` as shm_writer.h uses them.
use sigaw.Prelude.{
  ℕ, zero, suc, ◌+◌, ◌-◌, ◌≤◌, ◌<◌, ◌≡◌, refl, ap, false, [], ◌∷◌, ◌++◌, arith, ◌==◌, leb,
  if◌then◌else◌, Bytes, length, take, drop, replicate, set, length-take, length-append, All,
}

-- `memset(dst, 0, n)`.
unfoldable pub zeros : ℕ → Bytes
zeros n = replicate n 0

-- The text that a `char` pointer stands for: the bytes in front of the first NUL. It is `strlen`
-- bytes long.
unfoldable pub c_string : Bytes → Bytes
c_string [] = []
c_string (c ∷ s) = if c == 0 then [] else c ∷ c_string s

-- `strncpy(dst, src, n)` followed by `dst[n] = '\0'`, for an array of `n + 1` bytes.
unfoldable pub strncpy_terminated : ℕ → Bytes → Bytes
strncpy_terminated n src =
    let text = take n (c_string src) in text ++ (replicate (n - length text) 0 ++ 0 ∷ [])

-- `memcpy(dst, text, strlen(text)); dst[strlen(text)] = '\0'`: what stands behind is kept.
unfoldable pub memcpy_terminated : Bytes → Bytes → Bytes
memcpy_terminated dst text = text ++ (0 ∷ drop (suc (length text)) dst)

-- The number of bytes that fit into an array of `size` bytes with a NUL behind them.
unfoldable pub clamp_len : ℕ → ℕ → ℕ
clamp_len size len = if leb size len then size - 1 else len

abbrev NoNul : Bytes → Type 0
NoNul s = All (λ c. (c == 0) ≡ false) s

NoNul-c_string : (s : Bytes) → NoNul (c_string s)
unfolding c_string
NoNul-c_string [] = tt
NoNul-c_string (c ∷ s) = ground (arith, NoNul-c_string s)

NoNul-take : (n : ℕ) (s : Bytes) → NoNul s → NoNul (take n s)
NoNul-take zero s h = tt
NoNul-take (suc n) [] h = tt
NoNul-take (suc n) (c ∷ s) h = (h.0, NoNul-take n s h.1)

c_string-append : (s rest : Bytes) → NoNul s → c_string (s ++ (0 ∷ rest)) ≡ s
unfolding c_string
c_string-append [] rest h = refl
c_string-append (c ∷ s) rest h = ground (arith, c_string-append s rest h.1)

replicate_then : (k : ℕ) → (rest : Bytes) × (replicate k 0 ++ 0 ∷ [] ≡ 0 ∷ rest)
replicate_then zero = ([], refl)
replicate_then (suc k) = (replicate k 0 ++ 0 ∷ [], refl)

-- What a reader of the array gets is the text, cut to the bytes that fit.
pub c_string-strncpy_terminated :
    (n : ℕ) (src : Bytes) → c_string (strncpy_terminated n src) ≡ take n (c_string src)
unfolding strncpy_terminated
c_string-strncpy_terminated n src =
    let text = take n (c_string src) in
    let (rest, e) = replicate_then (n - length text) in
    rw e (c_string-append text rest (NoNul-take n (c_string src) (NoNul-c_string src)))

pub length-zeros : (n : ℕ) → length (zeros n) ≡ n
unfolding zeros
length-zeros zero = refl
length-zeros (suc n) = ap suc (length-zeros n)

length-replicate : (n : ℕ) → length (replicate {A = ℕ} n 0) ≡ n
length-replicate zero = refl
length-replicate (suc n) = ap suc (length-replicate n)

pub length-strncpy_terminated : (n : ℕ) (src : Bytes) → length (strncpy_terminated n src) ≡ n + 1
unfolding strncpy_terminated
length-strncpy_terminated n src =
    let text = take n (c_string src) in
    omega (
      arith,
      length-append {A = ℕ} text (replicate (n - length text) 0 ++ 0 ∷ []),
      length-append {A = ℕ} (replicate (n - length text) 0) (0 ∷ []),
      length-replicate (n - length text),
      length-take n (c_string src),
    )

pub c_string-memcpy_terminated :
    (n : ℕ) (dst src : Bytes)
    → c_string (memcpy_terminated dst (take n (c_string src))) ≡ take n (c_string src)
unfolding memcpy_terminated
c_string-memcpy_terminated n dst src =
    c_string-append (take n (c_string src)) _ (NoNul-take n (c_string src) (NoNul-c_string src))

length-drop-suc :
    (n : ℕ) (xs : Bytes) → n < length xs → suc n + length (drop (suc n) xs) ≡ length xs
length-drop-suc n [] h = absurd (omega arith)
length-drop-suc zero (x ∷ xs) h = omega arith
length-drop-suc (suc n) (x ∷ xs) h = omega (arith, length-drop-suc n xs)

pub length-memcpy_terminated :
    (dst text : Bytes) → length text < length dst → length (memcpy_terminated dst text) ≡ length dst
unfolding memcpy_terminated
length-memcpy_terminated dst text h = omega (
  arith,
  length-append text (0 ∷ drop (suc (length text)) dst),
  length-drop-suc (length text) dst h,
)

take_all : (n : ℕ) (s : Bytes) → length s ≤ n → take n s ≡ s
take_all zero [] h = refl
take_all zero (c ∷ s) h = absurd (omega arith)
take_all (suc n) [] h = refl
take_all (suc n) (c ∷ s) h = ap (◌∷◌ c) (take_all n s (omega arith))

-- The clamped length cuts the text to the bytes that fit, and is the length of what is left.
pub take-clamp_len :
    (n : ℕ) (s : Bytes)
    → (take (clamp_len (suc n) (length s)) s ≡ take n s)
      × (clamp_len (suc n) (length s) ≡ length (take n s))
unfolding clamp_len
take-clamp_len n s = ground (arith, take_all (length s) s, take_all n s, length-take n s)

-- A NUL at the front leaves the empty string.
pub c_string-set_zero : (s : Bytes) → c_string (set s 0 0) ≡ []
unfolding c_string
c_string-set_zero [] = refl
c_string-set_zero (c ∷ s) = refl
