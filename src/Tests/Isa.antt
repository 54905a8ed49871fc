-- ===== src/Tests/Isa.antt =====
-- Instruction words, products and tags at concrete values.
use riscv_isa_sim.Base.{◌-◌, ◌*◌, ◌/◌, ◌%◌, ◌^◌, ◌≡◌, arith}
use riscv_isa_sim.Isa.Mulhi.{mulh}
use riscv_isa_sim.Isa.Mulhi.Signed.{extend128, mulh_lem}

-- The least number times -1.
mulh_lem_example :
    mulh (2 ^ 63) (2 ^ 64 - 1) ≡ extend128 (2 ^ 63) * extend128 (2 ^ 64 - 1) % 2 ^ 128 / 2 ^ 64
mulh_lem_example = mulh_lem (2 ^ 63) (2 ^ 64 - 1) (omega arith) (omega arith)
