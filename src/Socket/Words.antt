-- ===== src/Socket/Words.antt =====
-- Words of 32 bits as the bytes that are sent, on a little-endian machine.
use sigaw.Prelude.{ℕ, ◌+◌, ◌*◌, ◌/◌, ◌%◌, ◌^◌, ◌<◌, ◌≡◌, [], ◌∷◌, arith, Bytes}

-- `memcpy` from a `uint32_t`, and to one.
unfoldable pub u32_bytes : ℕ → Bytes
u32_bytes n = n % 256 ∷ n / 256 % 256 ∷ n / 65536 % 256 ∷ n / 16777216 % 256 ∷ []

unfoldable pub u32_of : Bytes → ℕ
u32_of [] = 0
u32_of (b ∷ bs) = b + 256 * u32_of bs

pub u32_of-u32_bytes : (n : ℕ) → n < 2 ^ 32 → u32_of (u32_bytes n) ≡ n
unfolding u32_bytes u32_of
u32_of-u32_bytes n h = omega arith
