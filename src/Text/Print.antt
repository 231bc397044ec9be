-- ===== src/Text/Print.antt =====
-- What is printed by `std::to_string` of an `int`: `std::stoi` reads it back, and it has no spaces.
use sigaw.Prelude.{
  ℕ, zero, suc, ◌+◌, ◌-◌, ◌/◌, ◌%◌, ◌^◌, ◌<◌, ◌≡◌, refl, true, [], ◌∷◌, some, arith, ltb, Bytes,
  All,
}
use sigaw.Prelude.Int.{ℤ, pos, negsuc}
use sigaw.Text.{
  is_space, is_digit, decimal_onto, to_string, to_string_int, skip_spaces, digits_value, int_digits,
  signed_int, stoi, to_string-cons, digits_value-to_string,
}

-- A value of the 32-bit `int`.
abbrev pub IsInt : ℤ → Type 0
IsInt (pos n) = n < 2 ^ 31
IsInt (negsuc n) = n < 2 ^ 31

positive_text :
    (c n : ℕ) (s : Bytes)
    → is_digit c ≡ true
    → digits_value 0 (c ∷ s) ≡ n
    → n < 2 ^ 31
    → stoi (c ∷ s) ≡ some (pos n)
unfolding stoi skip_spaces is_space signed_int int_digits is_digit
positive_text c n s d e h = ground arith

negative_text :
    (c n : ℕ) (s : Bytes)
    → is_digit c ≡ true
    → digits_value 0 (c ∷ s) ≡ suc n
    → n < 2 ^ 31
    → stoi (b'-' ∷ c ∷ s) ≡ some (negsuc n)
unfolding stoi skip_spaces is_space signed_int int_digits is_digit
negative_text c n s d e h = let back : suc n - 1 ≡ n = omega arith in ground (arith, back)

pub stoi-to_string_int : (z : ℤ) → IsInt z → stoi (to_string_int z) ≡ some z
unfolding to_string_int
stoi-to_string_int (pos n) h =
    let (c, s, e, d) = to_string-cons n in
    rw e (positive_text c n s d (rw e at (digits_value-to_string n)) h)
stoi-to_string_int (negsuc n) h =
    let (c, s, e, d) = to_string-cons (suc n) in
    rw e (negative_text c n s d (rw e at (digits_value-to_string (suc n))) h)

-- The bytes of a number: digits and the sign.
abbrev pub IsNumeral : ℕ → Type 0
IsNumeral c = (ltb 32 c ≡ true)

decimal_onto-IsNumeral :
    (f n : ℕ) (rest : Bytes) → All IsNumeral rest → All IsNumeral (decimal_onto f n rest)
unfolding decimal_onto
decimal_onto-IsNumeral zero n rest h = h
decimal_onto-IsNumeral (suc f) n rest h =
    ground (arith, h, decimal_onto-IsNumeral f (n / 10) ((b'0' + n % 10) ∷ rest) (ground arith, h))

pub to_string_int-IsNumeral : (z : ℤ) → All IsNumeral (to_string_int z)
unfolding to_string_int to_string
to_string_int-IsNumeral (pos n) = decimal_onto-IsNumeral (suc n) n [] tt
to_string_int-IsNumeral (negsuc n) = (refl, decimal_onto-IsNumeral (suc (suc n)) (suc n) [] tt)
