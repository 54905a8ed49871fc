-- ===== src/Isa/Insn.antt =====
-- `insn_t` of riscv/decode.h: an instruction word, sign-extended to 64 bits, and its fields.
pub mod Fields
use riscv_isa_sim.Base.{ℕ, ◌+◌, ◌-◌, bit_and, ltb, ◌==◌, if◌then◌else◌, add64, shl64, shr64, sar64}

-- `x(lo, len)` and `xs(lo, len)`: a field, zero- and sign-extended.
unfoldable pub x : ℕ → ℕ → ℕ → ℕ
x b lo len = bit_and (shr64 b lo) (shl64 1 len - 1)

unfoldable pub xs : ℕ → ℕ → ℕ → ℕ
xs b lo len = sar64 (shl64 b (64 - lo - len)) (64 - len)

unfoldable pub imm_sign : ℕ → ℕ
unfolding xs
imm_sign b = xs b 63 1

unfoldable pub i_imm : ℕ → ℕ
i_imm b = sar64 b 20

unfoldable pub s_imm : ℕ → ℕ
unfolding x xs
s_imm b = add64 (x b 7 5) (shl64 (xs b 25 7) 5)

unfoldable pub sb_imm : ℕ → ℕ
unfolding x imm_sign
sb_imm b =
    add64 (add64 (add64 (shl64 (x b 8 4) 1) (shl64 (x b 25 6) 5)) (shl64 (x b 7 1) 11))
      (shl64 (imm_sign b) 12)

unfoldable pub u_imm : ℕ → ℕ
u_imm b = shl64 (sar64 b 12) 12

unfoldable pub uj_imm : ℕ → ℕ
unfolding x imm_sign
uj_imm b =
    add64 (add64 (add64 (shl64 (x b 21 10) 1) (shl64 (x b 20 1) 11)) (shl64 (x b 12 8) 12))
      (shl64 (imm_sign b) 20)

unfoldable pub u_imm_noshift : ℕ → ℕ
u_imm_noshift b = sar64 b 12

unfoldable pub rd : ℕ → ℕ
unfolding x
rd b = x b 7 5

unfoldable pub rs1 : ℕ → ℕ
unfolding x
rs1 b = x b 15 5

unfoldable pub rs2 : ℕ → ℕ
unfolding x
rs2 b = x b 20 5

unfoldable pub rs3 : ℕ → ℕ
unfolding x
rs3 b = x b 27 5

unfoldable pub rm : ℕ → ℕ
unfolding x
rm b = x b 12 3

unfoldable pub csr : ℕ → ℕ
unfolding x
csr b = x b 20 12

-- The macro `insn_length`: the length in bytes, from the lowest bits.
unfoldable pub insn_length : ℕ → ℕ
insn_length b =
    if ltb (bit_and b 0x03) 0x03
    then 2
    else if ltb (bit_and b 0x1f) 0x1f
    then 4
    else if ltb (bit_and b 0x3f) 0x3f
    then 6
    else 8
