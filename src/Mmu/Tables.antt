-- ===== src/Mmu/Tables.antt =====
-- `flush_tlb` and `flush_icache` of riscv/mmu.cc.
use riscv_isa_sim.Base.{minus_one}
use riscv_isa_sim.Hart.Machine.{Mmu}

unfoldable pub flush_icache : Mmu → Mmu
flush_icache u = record u { icache = λ i. record (u.icache i) { tag = minus_one } }

unfoldable pub flush_tlb : Mmu → Mmu
unfolding flush_icache
flush_tlb u = flush_icache (record u {
  tlb_insn_tag = λ _. minus_one;
  tlb_load_tag = λ _. minus_one;
  tlb_store_tag = λ _. minus_one;
})
