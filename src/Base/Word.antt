-- ===== src/Base/Word.antt =====
-- Unsigned machine words: a value is a number, and every operation of the source that can leave
-- the width of its type is followed by a remainder.
use Prim.Native.Nat.{ℕ, ◌+◌, ◌-◌, ◌*◌, ◌/◌, ◌%◌, ◌^◌}

abbrev pub u16 : ℕ → ℕ
u16 n = n % 2 ^ 16

abbrev pub u32 : ℕ → ℕ
u32 n = n % 2 ^ 32

abbrev pub u64 : ℕ → ℕ
u64 n = n % 2 ^ 64

-- `unsigned long` sums and differences; the second operand of a difference fits the width.
abbrev pub add64 : ℕ → ℕ → ℕ
add64 a b = (a + b) % 2 ^ 64

abbrev pub sub64 : ℕ → ℕ → ℕ
sub64 a b = (a + 2 ^ 64 - b) % 2 ^ 64

-- `- x` and `x << k` at `unsigned long`.
abbrev pub neg64 : ℕ → ℕ
neg64 x = (2 ^ 64 - x) % 2 ^ 64

abbrev pub shl64 : ℕ → ℕ → ℕ
shl64 x k = x * 2 ^ k % 2 ^ 64

abbrev pub shr : ℕ → ℕ → ℕ
shr x k = x / 2 ^ k

-- `(long) (int) x`, read again as 64 bits: the low 32 bits with their sign bit spread upwards.
abbrev pub sign_extend32 : ℕ → ℕ
sign_extend32 x = x % 2 ^ 32 + x % 2 ^ 32 / 2 ^ 31 * (2 ^ 64 - 2 ^ 32)

-- A bit-field of `width` bits from bit `low` on, read and written in the word that holds it.
abbrev pub get_bits : ℕ → ℕ → ℕ → ℕ
get_bits low width w = w / 2 ^ low % 2 ^ width

abbrev pub set_bits : ℕ → ℕ → ℕ → ℕ → ℕ
set_bits low width w v =
    w % 2 ^ low + v % 2 ^ width * 2 ^ low + w / 2 ^ (low + width) * 2 ^ (low + width)
