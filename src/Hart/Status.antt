-- ===== src/Hart/Status.antt =====
-- The status register: the case CSR_STATUS of `set_pcr`, and `reset` (riscv/processor.cc).
pub mod Laws
use riscv_isa_sim.Base.{
  ℕ, Bool, true, false, ◌==◌, not, if◌then◌else◌, bit_and, bit_or, not32, u32, has,
}
use riscv_isa_sim.Build.{Build}
use riscv_isa_sim.Isa.Encoding.{sr_s, sr_ip, sr_s64, sr_u64, sr_ef, sr_ea, sr_zero}
use riscv_isa_sim.Hart.State
use riscv_isa_sim.Hart.State.{State}
use riscv_isa_sim.Hart.Machine.{Machine}
use riscv_isa_sim.Mmu.Tables.{flush_tlb}

module _ (b : Build) where
  -- The new value of the status register: the pending interrupts stay, and what the build or the
  -- absence of an extension rules out is cleared.
  unfoldable pub next_sr : Bool → ℕ → ℕ → ℕ
  next_sr has_ext val sr =
      let sr1 = bit_or (bit_and val (not32 sr_ip)) (bit_and sr sr_ip) in
      let sr2 = if b.enable_64bit then sr1 else bit_and sr1 (not32 (bit_or sr_s64 sr_u64)) in
      let sr3 = if b.enable_fpu then sr2 else bit_and sr2 (not32 sr_ef) in
      let sr4 = if has_ext then sr3 else bit_and sr3 (not32 sr_ea) in bit_and sr4 (not32 sr_zero)

  unfoldable pub set_status : ℕ → Machine → Machine
  unfolding next_sr flush_tlb
  set_status val m =
      let sr' = next_sr m.has_ext val m.state.sr in
      record m {
        state = record m.state { sr = sr' };
        rv64 = if has sr' sr_s then has sr' sr_s64 else has sr' sr_u64;
        mmu = flush_tlb m.mmu;
      }

  -- `processor_t::reset(value)`, less the call of the extension.
  unfoldable pub reset : Bool → Machine → Machine
  unfolding set_status State.reset
  reset value m =
      let running = record m { run = not value; state = State.reset } in
      let same = if m.run then not value else value in
      if same then m else set_status running.state.sr running
