-- ===== src/Text.antt =====
-- The C and C++ library functions on text that the program calls: `isspace` and `tolower` in the
-- C locale, `std::to_string` and `std::stoull`.
pub mod Print
use sigaw.Prelude.{
  ℕ, zero, suc, ◌+◌, ◌-◌, ◌*◌, ◌/◌, ◌%◌, ◌^◌, ◌<◌, ◌≡◌, Bool, true, false, ◌&&◌, ◌||◌, not, [], ◌∷◌,
  Option, none, some, arith, ltb, leb, ◌==◌, if◌then◌else◌, Bytes, Bool-cases, is_empty, inl, inr,
}
use sigaw.Prelude.Int.{ℤ, pos, negsuc}

-- `std::isspace`.
unfoldable pub is_space : ℕ → Bool
is_space c = c == 32 || (leb 9 c && leb c 13)

-- `std::tolower`.
unfoldable pub tolower : ℕ → ℕ
tolower c = if leb b'A' c && leb c b'Z' then c + 32 else c

unfoldable pub is_digit : ℕ → Bool
is_digit c = leb b'0' c && leb c b'9'

-- `std::isalnum`.
unfoldable pub is_alnum : ℕ → Bool
unfolding is_digit
is_alnum c = is_digit c || (leb b'a' c && leb c b'z') || (leb b'A' c && leb c b'Z')

-- The decimal digits of `n` in front of `rest`; the fuel is above `n`.
decimal_onto : ℕ → ℕ → Bytes → Bytes
decimal_onto zero n rest = rest
decimal_onto (suc f) n rest =
    let more = decimal_onto f (n / 10) ((b'0' + n % 10) ∷ rest) in
    if ltb n 10 then (b'0' + n) ∷ rest else more

-- `std::to_string` of an unsigned number, and of a signed one.
unfoldable pub to_string : ℕ → Bytes
unfolding decimal_onto
to_string n = decimal_onto (suc n) n []

unfoldable pub to_string_int : ℤ → Bytes
unfolding to_string
to_string_int (pos n) = to_string n
to_string_int (negsuc n) = b'-' ∷ to_string (suc n)

unfoldable pub skip_spaces : Bytes → Bytes
unfolding is_space
skip_spaces [] = []
skip_spaces (c ∷ s) = if is_space c then skip_spaces s else c ∷ s

-- The number that the leading digits spell, read after `n`.
digits_value : ℕ → Bytes → ℕ
unfolding is_digit
digits_value n [] = n
digits_value n (c ∷ s) =
    let more = digits_value (n * 10 + (c - b'0')) s in if is_digit c then more else n

-- Behind the sign: no digit is `std::invalid_argument`, too large a number `std::out_of_range`.
unsigned_digits : Bool → Bytes → Option ℕ
unfolding digits_value is_digit
unsigned_digits negative [] = none
unsigned_digits negative (c ∷ s) =
    let v = digits_value 0 (c ∷ s) in
    if not (is_digit c)
    then none
    else if leb (2 ^ 64) v
    then none
    else if negative
    then some ((2 ^ 64 - v) % 2 ^ 64)
    else some v

signed_text : Bytes → Option ℕ
unfolding unsigned_digits
signed_text [] = none
signed_text (c ∷ s) =
    if c == b'-'
    then unsigned_digits true s
    else if c == b'+'
    then unsigned_digits false s
    else unsigned_digits false (c ∷ s)

-- The digits of an `int`, behind its sign: no digit is `std::invalid_argument`, a value outside the
-- 32-bit `int` is `std::out_of_range`.
int_digits : Bool → Bytes → Option ℤ
unfolding digits_value is_digit
int_digits negative [] = none
int_digits negative (c ∷ s) =
    let v = digits_value 0 (c ∷ s) in
    if not (is_digit c)
    then none
    else if not negative && ltb v (2 ^ 31)
    then some (pos v)
    else if negative && v == 0
    then some (pos 0)
    else if negative && leb v (2 ^ 31)
    then some (negsuc (v - 1))
    else none

signed_int : Bytes → Option ℤ
unfolding int_digits
signed_int [] = none
signed_int (c ∷ s) =
    if c == b'-'
    then int_digits true s
    else if c == b'+'
    then int_digits false s
    else int_digits false (c ∷ s)

-- `std::stoi`; `none` is an exception.
unfoldable pub stoi : Bytes → Option ℤ
unfolding signed_int skip_spaces
stoi s = signed_int (skip_spaces s)

-- `std::stoull`; `none` is an exception.
unfoldable pub stoull : Bytes → Option ℕ
unfolding skip_spaces signed_text
stoull s = signed_text (skip_spaces s)

digits_value-decimal_onto :
    (f n : ℕ) (rest : Bytes) → n < f → digits_value 0 (decimal_onto f n rest) ≡ digits_value n rest
unfolding digits_value decimal_onto
digits_value-decimal_onto zero n rest h = absurd (omega arith)
digits_value-decimal_onto (suc f) n rest h =
    ground (arith, digits_value-decimal_onto f (n / 10) ((b'0' + n % 10) ∷ rest))

decimal_onto-cons :
    (f n : ℕ) (rest : Bytes)
    → n < f
    → (c : ℕ) × (s : Bytes) × (decimal_onto f n rest ≡ c ∷ s) × (is_digit c ≡ true)
unfolding decimal_onto is_digit
decimal_onto-cons zero n rest h = absurd (omega arith)
decimal_onto-cons (suc f) n rest h = elim (Bool-cases (ltb n 10)) [
  | inl small ↦ (b'0' + n, rest, ground arith, ground arith)
  | inr large ↦
      let (c, s, e, d) = decimal_onto-cons f (n / 10) ((b'0' + n % 10) ∷ rest) (ground arith) in
      (c, s, ground arith, d)
]

to_string-cons : (n : ℕ) → (c : ℕ) × (s : Bytes) × (to_string n ≡ c ∷ s) × (is_digit c ≡ true)
unfolding to_string
to_string-cons n = decimal_onto-cons (suc n) n [] (omega arith)

digits_value-to_string : (n : ℕ) → digits_value 0 (to_string n) ≡ n
unfolding to_string digits_value
digits_value-to_string n = digits_value-decimal_onto (suc n) n [] (omega arith)

unsigned_text :
    (c n : ℕ) (s t : Bytes)
    → t ≡ c ∷ s
    → is_digit c ≡ true
    → digits_value 0 t ≡ n
    → n < 2 ^ 64
    → stoull t ≡ some n
unfolding stoull is_digit
unsigned_text c n s t q d e h = rw q (unsigned_head (rw q at e))
  where
    unsigned_head : digits_value 0 (c ∷ s) ≡ n → stoull (c ∷ s) ≡ some n
    unsigned_head e' = ground arith

-- A printed number is read back.
pub stoull-to_string : (n : ℕ) → n < 2 ^ 64 → stoull (to_string n) ≡ some n
stoull-to_string n h =
    let (c, s, e, d) = to_string-cons n in
    unsigned_text c n s (to_string n) e d (digits_value-to_string n) h

pub is_empty-to_string : (n : ℕ) → is_empty (to_string n) ≡ false
is_empty-to_string n = let (c, s, e, d) = to_string-cons n in rw e
