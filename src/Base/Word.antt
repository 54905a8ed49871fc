-- ===== src/Base/Word.antt =====
-- C's fixed-width integers as native numbers: a word of w bits is a number below 2 ^ w, and
-- each cast or wrap is written out.
use Prim.Native.Nat.{ℕ, ◌+◌, ◌-◌, ◌*◌, ◌/◌, ◌%◌, ◌^◌, bit_and}
use mathlib.Core.Bool.{Bool}
use riscv_isa_sim.Base.Tests.{not, ltb, ◌==◌, if◌then◌else◌}

-- Casts to uint8_t, uint32_t and uint64_t.
abbrev pub u8 : ℕ → ℕ
u8 n = n % 2 ^ 8

abbrev pub u32 : ℕ → ℕ
u32 n = n % 2 ^ 32

abbrev pub u64 : ℕ → ℕ
u64 n = n % 2 ^ 64

-- uint64_t arithmetic. `-` on ℕ stops at 0, so the modulus is added first.
abbrev pub add64 : ℕ → ℕ → ℕ
add64 a b = u64 (a + b)

abbrev pub sub64 : ℕ → ℕ → ℕ
sub64 a b = u64 (a + 2 ^ 64 - b)

abbrev pub mul64 : ℕ → ℕ → ℕ
mul64 a b = u64 (a * b)

-- `~x` at 32 and 64 bits, and (reg_t)-1.
abbrev pub not32 : ℕ → ℕ
not32 x = 2 ^ 32 - 1 - x

abbrev pub not64 : ℕ → ℕ
not64 x = 2 ^ 64 - 1 - x

abbrev pub minus_one : ℕ
minus_one = 2 ^ 64 - 1

-- `x << k` and `x >> k` on uint64_t.
abbrev pub shl64 : ℕ → ℕ → ℕ
shl64 x k = u64 (x * 2 ^ k)

abbrev pub shr64 : ℕ → ℕ → ℕ
shr64 x k = x / 2 ^ k

-- The sign of an int64_t given by its bit pattern.
abbrev pub is_neg : ℕ → Bool
is_neg x = not (ltb x (2 ^ 63))

-- `x >> k` on int64_t: the sign is shifted in.
unfoldable pub sar64 : ℕ → ℕ → ℕ
sar64 x k = if is_neg x then not64 (not64 x / 2 ^ k) else x / 2 ^ k

-- `a < b` on int64_t: the order of the patterns with the sign bit turned round.
unfoldable pub slt64 : ℕ → ℕ → Bool
slt64 a b = ltb (u64 (a + 2 ^ 63)) (u64 (b + 2 ^ 63))

-- sext32 and zext32 of decode.h.
unfoldable pub sext32 : ℕ → ℕ
sext32 x = if ltb (u32 x) (2 ^ 31) then u32 x else u32 x + (2 ^ 64 - 2 ^ 32)

-- `x & mask` as a condition.
abbrev pub has : ℕ → ℕ → Bool
has x mask = not (bit_and x mask == 0)
