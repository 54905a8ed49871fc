-- ===== src/Isa/Mulhi.antt =====
-- riscv/mulhi.h: the high 64 bits of a 128-bit product, from 32-bit halves.
pub mod Laws
pub mod Signed
use riscv_isa_sim.Base.{
  ℕ, ◌+◌, ◌*◌, ◌^◌, Bool, true, false, if◌then◌else◌, ltb, ◌==◌, not, bit_or, u32, u64, add64,
  sub64, mul64, not64, shl64, shr64, is_neg,
}

-- `uint64_t mulhu(uint64_t, uint64_t)`: the halves of the operands, and the carries in 32-bit
-- variables.
unfoldable pub mulhu : ℕ → ℕ → ℕ
mulhu a b =
    let a0 = u32 a in
    let a1 = shr64 a 32 in
    let b0 = u32 b in
    let b1 = shr64 b 32 in
    let t1 = add64 (mul64 a1 b0) (shr64 (mul64 a0 b0) 32) in
    let y1 = u32 t1 in
    let y2 = u32 (shr64 t1 32) in
    let t2 = add64 (mul64 a0 b1) y1 in
    let t3 = add64 (add64 (mul64 a1 b1) y2) (shr64 t2 32) in
    let y2' = u32 t3 in let y3 = u32 (shr64 t3 32) in bit_or (shl64 y3 32) y2'

-- `a < 0 ? -a : a`
unfoldable pub magnitude : ℕ → ℕ
magnitude a = if is_neg a then sub64 0 a else a

-- `negate ? ~res + (a * b == 0) : res`
unfoldable pub negate_high : Bool → ℕ → ℕ → ℕ
negate_high negate res low = if negate then add64 (not64 res) (if low == 0 then 1 else 0) else res

unfoldable pub mulh : ℕ → ℕ → ℕ
unfolding magnitude negate_high
mulh a b =
    let negate = if is_neg a then not (is_neg b) else is_neg b in
    let res = mulhu (magnitude a) (magnitude b) in negate_high negate res (mul64 a b)

unfoldable pub mulhsu : ℕ → ℕ → ℕ
unfolding magnitude negate_high
mulhsu a b =
    let negate = is_neg a in let res = mulhu (magnitude a) b in negate_high negate res (mul64 a b)
