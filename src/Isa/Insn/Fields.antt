-- ===== src/Isa/Insn/Fields.antt =====
-- The fields of a 32-bit instruction word are the digits that the instruction format gives them.
use riscv_isa_sim.Base.{
  ℕ, ◌+◌, ◌-◌, ◌*◌, ◌/◌, ◌%◌, ◌^◌, ◌<◌, ◌≡◌, refl, ◌∙◌, arith, ltb, if◌then◌else◌, u64, sext32,
  sar64, bit_and_low,
}
use riscv_isa_sim.Isa.Insn.{x, xs, imm_sign, i_imm, s_imm, sb_imm, u_imm, uj_imm, rd, rs1, rs2, csr}

-- The low n bits as a two's complement number, at 64 bits.
abbrev pub sign_extend : ℕ → ℕ → ℕ
sign_extend n v = if ltb v (2 ^ (n - 1)) then v else v + (2 ^ 64 - 2 ^ n)

-- I-format: the immediate is the 12 highest bits.
pub i_imm-encode :
    (imm rest : ℕ)
    → imm < 2 ^ 12
    → rest < 2 ^ 20
    → i_imm (sext32 (imm * 2 ^ 20 + rest)) ≡ sign_extend 12 imm
unfolding i_imm sar64 sext32
i_imm-encode imm rest p q = ground arith

xs_top : (w : ℕ) → w < 2 ^ 32 → xs (sext32 w) 25 7 ≡ sign_extend 7 (w / 2 ^ 25)
unfolding xs sar64 sext32
xs_top w h = ground arith

imm_sign_lem :
    (w : ℕ) → w < 2 ^ 32 → imm_sign (sext32 w) ≡ (if ltb w (2 ^ 31) then 0 else 2 ^ 64 - 1)
unfolding imm_sign sar64 sext32
imm_sign_lem w h = ground arith

x-1 : (lo w : ℕ) → x w lo 1 ≡ w / 2 ^ lo % 2 ^ 1
unfolding x
x-1 lo w = bit_and_low 1 (w / 2 ^ lo)

x-4 : (lo w : ℕ) → x w lo 4 ≡ w / 2 ^ lo % 2 ^ 4
unfolding x
x-4 lo w = bit_and_low 4 (w / 2 ^ lo)

x-6 : (lo w : ℕ) → x w lo 6 ≡ w / 2 ^ lo % 2 ^ 6
unfolding x
x-6 lo w = bit_and_low 6 (w / 2 ^ lo)

x-8 : (lo w : ℕ) → x w lo 8 ≡ w / 2 ^ lo % 2 ^ 8
unfolding x
x-8 lo w = bit_and_low 8 (w / 2 ^ lo)

x-10 : (lo w : ℕ) → x w lo 10 ≡ w / 2 ^ lo % 2 ^ 10
unfolding x
x-10 lo w = bit_and_low 10 (w / 2 ^ lo)

x-12 : (lo w : ℕ) → x w lo 12 ≡ w / 2 ^ lo % 2 ^ 12
unfolding x
x-12 lo w = bit_and_low 12 (w / 2 ^ lo)

x-5 : (lo w : ℕ) → x w lo 5 ≡ w / 2 ^ lo % 2 ^ 5
unfolding x
x-5 lo w = bit_and_low 5 (w / 2 ^ lo)

-- S-format: the immediate is split over bits 31:25 and 11:7.
pub s_imm-encode :
    (hi lo mid opcode : ℕ)
    → hi < 2 ^ 7
    → lo < 2 ^ 5
    → mid < 2 ^ 13
    → opcode < 2 ^ 7
    → s_imm (sext32 (hi * 2 ^ 25 + mid * 2 ^ 12 + lo * 2 ^ 7 + opcode))
      ≡ sign_extend 12 (hi * 2 ^ 5 + lo)
s_imm-encode hi lo mid opcode p q r t =
    ground (arith, parts (sext32 w), xs_top w (omega arith), low, high)
  where
    w : ℕ
    w = hi * 2 ^ 25 + mid * 2 ^ 12 + lo * 2 ^ 7 + opcode

    parts : (b : ℕ) → s_imm b ≡ u64 (x b 7 5 + u64 (xs b 25 7 * 2 ^ 5))
    parts b = unfold s_imm in refl

    low : x (sext32 w) 7 5 ≡ lo
    low = x-5 7 (sext32 w) ∙ unfold sext32 in ground arith

    high : w / 2 ^ 25 ≡ hi
    high = omega arith

-- SB-format: a branch offset, even, of 13 bits, whose digits stand at 31, 7, 30:25 and 11:8.
pub sb_imm-encode :
    (sign b11 hi lo mid opcode : ℕ)
    → sign < 2
    → b11 < 2
    → hi < 2 ^ 6
    → lo < 2 ^ 4
    → mid < 2 ^ 13
    → opcode < 2 ^ 7
    → sb_imm
        (sext32 (sign * 2 ^ 31 + hi * 2 ^ 25 + mid * 2 ^ 12 + lo * 2 ^ 8 + b11 * 2 ^ 7 + opcode))
      ≡ sign_extend 13 (sign * 2 ^ 12 + b11 * 2 ^ 11 + hi * 2 ^ 5 + lo * 2)
sb_imm-encode sign b11 hi lo mid opcode p q r t u v = ground (
  arith,
  parts (sext32 w),
  imm_sign_lem w (omega arith),
  low_bits,
  x-4 8 (sext32 w),
  x-6 25 (sext32 w),
  x-1 7 (sext32 w),
)
  where
    w : ℕ
    w = sign * 2 ^ 31 + hi * 2 ^ 25 + mid * 2 ^ 12 + lo * 2 ^ 8 + b11 * 2 ^ 7 + opcode

    parts :
        (b : ℕ)
        → sb_imm b
          ≡ u64 (
              u64 (u64 (u64 (x b 8 4 * 2 ^ 1) + u64 (x b 25 6 * 2 ^ 5)) + u64 (x b 7 1 * 2 ^ 11))
              + u64 (imm_sign b * 2 ^ 12))
    parts b = unfold sb_imm in refl

    low_bits : sext32 w % 2 ^ 32 ≡ w
    low_bits = unfold sext32 in ground arith

-- UJ-format: a jump offset, even, of 21 bits, whose digits stand at 31, 19:12, 20 and 30:21.
pub uj_imm-encode :
    (sign hi b11 lo rest : ℕ)
    → sign < 2
    → hi < 2 ^ 8
    → b11 < 2
    → lo < 2 ^ 10
    → rest < 2 ^ 12
    → uj_imm (sext32 (sign * 2 ^ 31 + lo * 2 ^ 21 + b11 * 2 ^ 20 + hi * 2 ^ 12 + rest))
      ≡ sign_extend 21 (sign * 2 ^ 20 + hi * 2 ^ 12 + b11 * 2 ^ 11 + lo * 2)
uj_imm-encode sign hi b11 lo rest p q r t u = ground (
  arith,
  parts (sext32 w),
  imm_sign_lem w (omega arith),
  low_bits,
  x-10 21 (sext32 w),
  x-1 20 (sext32 w),
  x-8 12 (sext32 w),
)
  where
    w : ℕ
    w = sign * 2 ^ 31 + lo * 2 ^ 21 + b11 * 2 ^ 20 + hi * 2 ^ 12 + rest

    parts :
        (b : ℕ)
        → uj_imm b
          ≡ u64 (
              u64
                (u64 (u64 (x b 21 10 * 2 ^ 1) + u64 (x b 20 1 * 2 ^ 11)) + u64 (x b 12 8 * 2 ^ 12))
              + u64 (imm_sign b * 2 ^ 20))
    parts b = unfold uj_imm in refl

    low_bits : sext32 w % 2 ^ 32 ≡ w
    low_bits = unfold sext32 in ground arith

-- U-format: the immediate is the upper 20 bits in place, sign-extended.
pub u_imm-encode :
    (imm rest : ℕ)
    → imm < 2 ^ 20
    → rest < 2 ^ 12
    → u_imm (sext32 (imm * 2 ^ 12 + rest)) ≡ sign_extend 32 (imm * 2 ^ 12)
unfolding u_imm sar64 sext32
u_imm-encode imm rest p q = ground arith

-- The register and CSR numbers of an instruction word.
pub registers-encode :
    (top rs2' rs1' funct rd' opcode : ℕ)
    → top < 2 ^ 7
    → rs2' < 2 ^ 5
    → rs1' < 2 ^ 5
    → funct < 2 ^ 3
    → rd' < 2 ^ 5
    → opcode < 2 ^ 7
    → let b =
        sext32
          (top * 2 ^ 25 + rs2' * 2 ^ 20 + rs1' * 2 ^ 15 + funct * 2 ^ 12 + rd' * 2 ^ 7 + opcode) in
      (rd b ≡ rd') × (rs1 b ≡ rs1') × (rs2 b ≡ rs2') × (csr b ≡ top * 2 ^ 5 + rs2')
registers-encode top rs2' rs1' funct rd' opcode p q r t u v = (
  unfold rd in x-5 7 (sext32 w) ∙ unfold sext32 in ground arith,
  unfold rs1 in x-5 15 (sext32 w) ∙ unfold sext32 in ground arith,
  unfold rs2 in x-5 20 (sext32 w) ∙ unfold sext32 in ground arith,
  unfold csr in x-12 20 (sext32 w) ∙ unfold sext32 in ground arith,
)
  where
    w : ℕ
    w = top * 2 ^ 25 + rs2' * 2 ^ 20 + rs1' * 2 ^ 15 + funct * 2 ^ 12 + rd' * 2 ^ 7 + opcode
