-- ===== src/Rocc/Laws.antt =====
-- The instructions of the accelerator of dummy_rocc/dummy_rocc.cc, through riscv/rocc.cc.
use riscv_isa_sim.Base.{
  ℕ, ◌≡◌, ◌≤◌, ◌<◌, ◌⊎◌, inl, inr, refl, arith, true, false, ◌==◌, ◌&&◌, not, Bool-cases, leb, Bool,
  false, if◌then◌else◌, has, add64, minus_one, List, length, get_or, set, get_or-set_self,
  get_or-set_ne,
}
use riscv_isa_sim.Isa.Encoding.{sr_ea}
use riscv_isa_sim.Isa.Insn.{rd, rs2}
use riscv_isa_sim.Hart.RegFile.{read, write}
use riscv_isa_sim.Hart.RegFile.Laws.{IsValid}
use riscv_isa_sim.Hart.Machine.{Machine, done, trapped}
use riscv_isa_sim.Hart.Csr.{trap_illegal_instruction}
use riscv_isa_sim.Insns.Macros.{rs1_val, rs2_val}
use riscv_isa_sim.Insns.Float.{write_rd}
use riscv_isa_sim.Rocc.{xs1, xs2, xd, funct, custom_x, finish_custom, RoccFunc}
use riscv_isa_sim.Rocc.Dummy.{num_acc, dummy_custom0}

-- `c0` with the dummy accelerator.
abbrev pub c0 : RoccFunc (List ℕ)
c0 = custom_x dummy_custom0

-- What an instruction leaves in the sum it names, where the sum held a value and the operand is
-- another: 0 sets it, 1 keeps it, and 3 adds to it.
abbrev pub sum_after : (funct previous operand : ℕ) → ℕ
sum_after which previous operand =
    if which == 0 then operand else if which == 1 then previous else add64 previous operand

-- The operand, which is -1 where the word says that there is none.
abbrev pub operand_of : ℕ → Machine → ℕ
operand_of insn m = if xs1 insn then rs1_val insn m else minus_one

dummy-illegal :
    (insn x1 x2 : ℕ) (acc : List ℕ) (m : Machine)
    → (num_acc ≤ rs2 insn) ⊎ (3 < funct insn)
    → dummy_custom0 insn x1 x2 acc m ≡ (trapped trap_illegal_instruction m, acc)
unfolding dummy_custom0
dummy-illegal insn x1 x2 acc m bad = ground (arith, bad)

-- The sums after function 0, 1 or 3.
abbrev sums_after : (insn x1 : ℕ) → List ℕ → List ℕ
sums_after insn x1 acc =
    if funct insn == 1
    then acc
    else set acc (rs2 insn) (sum_after (funct insn) (get_or acc (rs2 insn) 0) x1)

abbrev IsSum : ℕ → Type 0
IsSum insn = (funct insn ≡ 0) ⊎ ((funct insn ≡ 1) ⊎ (funct insn ≡ 3))

small : (which : ℕ) → which < num_acc → leb num_acc which ≡ false
small which low = ground arith

dummy-sum :
    (insn x1 x2 : ℕ) (acc : List ℕ) (m : Machine)
    → rs2 insn < num_acc
    → IsSum insn
    → dummy_custom0 insn x1 x2 acc m ≡ (done (get_or acc (rs2 insn) 0) m, sums_after insn x1 acc)
unfolding dummy_custom0
dummy-sum insn x1 x2 acc m low (inl which) = rw (small (rs2 insn) low, which) refl
dummy-sum insn x1 x2 acc m low (inr (inl which)) = rw (small (rs2 insn) low, which) refl
dummy-sum insn x1 x2 acc m low (inr (inr which)) = rw (small (rs2 insn) low, which) refl

get_or-sums_after :
    (insn x1 : ℕ) (acc : List ℕ) (i : ℕ)
    → rs2 insn < num_acc
    → length acc ≡ num_acc
    → IsSum insn
    → get_or (sums_after insn x1 acc) i 0
      ≡ (if i == rs2 insn then sum_after (funct insn) (get_or acc i 0) x1 else get_or acc i 0)
get_or-sums_after insn x1 acc i low sized which = ground (
  arith,
  which,
  get_or-set_self acc (rs2 insn) (sum_after (funct insn) (get_or acc (rs2 insn) 0) x1) 0,
  get_or-set_ne acc (rs2 insn) i (sum_after (funct insn) (get_or acc (rs2 insn) 0) x1) 0,
)

-- The machine once the destination, if there is one, is written.
abbrev after_write : Bool → (dst v : ℕ) → Machine → Machine
after_write true dst v m = record m {
  state = record m.state { xpr = write true dst v m.state.xpr };
}
after_write false dst v m = m

read-after_write :
    (writes : Bool) (dst v : ℕ) (m : Machine)
    → IsValid 32 true m.state.xpr
    → dst < 32
    → (j : ℕ)
    → read (after_write writes dst v m).state.xpr j
      ≡ (if writes && (dst == j && not (j == 0)) then v else read m.state.xpr j)
unfolding read write
read-after_write false dst v m valid bounded j = refl
read-after_write true dst v m valid bounded j = ground (
  arith,
  valid.values_length,
  get_or-set_self m.state.xpr.values dst v 0,
  get_or-set_ne m.state.xpr.values dst j v 0,
)

module _ (m : Machine) (on : has m.state.sr sr_ea ≡ true) (insn pc : ℕ) (acc : List ℕ) where
  -- With the accelerator on, an instruction that names no sum, or has no function, throws a trap for
  -- an illegal instruction, and machine and sums are as they were.
  pub c0-illegal :
      (num_acc ≤ rs2 insn) ⊎ (3 < funct insn)
      → c0 insn pc acc m ≡ (trapped trap_illegal_instruction m, acc)
  unfolding custom_x finish_custom
  c0-illegal bad = rw (dummy-illegal insn (operand_of insn m) _ acc m bad, on) refl

  -- With the accelerator on, an instruction that sets a sum, reads it or adds to it goes on to the
  -- next one. Of the registers only its destination is changed, where the word says that it has one
  -- and that is not register 0: it holds what the sum was. Of the sums only the one it names is
  -- changed: it is set to the operand, kept, or the operand is added to it. An operand that the word
  -- does not take from a register is -1. (The register file is well formed, and there are `num_acc`
  -- sums; `rd` has five bits.)
  pub c0-sums :
      IsValid 32 true m.state.xpr
      → rd insn < 32
      → rs2 insn < num_acc
      → length acc ≡ num_acc
      → IsSum insn
      → (after : Machine) × ((c0 insn pc acc m).0 ≡ done (add64 pc 4) after)
        × ((j : ℕ)
            → read after.state.xpr j ≡ (
                if xd insn && (rd insn == j && not (j == 0))
                then get_or acc (rs2 insn) 0
                else read m.state.xpr j))
        × ((i : ℕ)
            → get_or (c0 insn pc acc m).1 i 0 ≡ (
                if i == rs2 insn
                then sum_after (funct insn) (get_or acc i 0) (operand_of insn m)
                else get_or acc i 0))
  unfolding custom_x finish_custom write_rd
  c0-sums valid bounded low sized which =
      let e =
        dummy-sum insn (operand_of insn m) (if xs2 insn then rs2_val insn m else minus_one) acc m
          low which in
      (
        after_write (xd insn) (rd insn) (get_or acc (rs2 insn) 0) m,
        rw (e, on) (elim (Bool-cases (xd insn)) [ inl d ↦ rw d refl | inr d ↦ rw d refl ]),
        read-after_write (xd insn) (rd insn) (get_or acc (rs2 insn) 0) m valid bounded,
        λ i. rw (e, on) (get_or-sums_after insn (operand_of insn m) acc i low sized which),
      )
