-- ===== src/Hart/Csr.antt =====
-- `set_pcr`, `get_pcr`, `serialize`, `deliver_ipi` of riscv/processor.cc, and `require_fp` and
-- `validate_csr` of riscv/decode.h.
pub mod Laws
use riscv_isa_sim.Base.{
  ℕ, ◌+◌, ◌-◌, ◌*◌, ◌/◌, ◌^◌, Bool, true, false, ◌==◌, ltb, leb, not, ◌&&◌, ◌||◌, if◌then◌else◌,
  bit_and, bit_or, not64, u32, u64, has, none, ◌∷◌,
}
use riscv_isa_sim.Build.{Build}
use riscv_isa_sim.Isa.Encoding
use riscv_isa_sim.Isa.Encoding.{
  csr_fflags, csr_frm, csr_fcsr, csr_status, csr_epc, csr_badvaddr, csr_evec, csr_count, csr_counth,
  csr_cycle, csr_time, csr_instret, csr_cycleh, csr_timeh, csr_instreth, csr_compare, csr_cause,
  csr_ptbr, csr_send_ipi, csr_clear_ipi, csr_asid, csr_fatc, csr_hartid, csr_impl, csr_sup0,
  csr_sup1, csr_tohost, csr_fromhost, csr_uarch0, csr_uarch15, irq_timer, irq_ipi, sr_ef, sr_s,
  cause_illegal_instruction, cause_fp_disabled, cause_privileged_instruction,
}
use riscv_isa_sim.Hart.State.{State}
use riscv_isa_sim.Hart.Machine.{
  Machine, M, Outcome, done, trapped, serialize_thrown, pure, throw, ◌>>=◌, ◌>>◌, gets, modify,
  modify_state, Trap,
}
use riscv_isa_sim.Hart.Interrupt.{set_interrupt, set_fromhost}
use riscv_isa_sim.Hart.Status.{set_status}
use riscv_isa_sim.Mmu.Tables.{flush_tlb}

abbrev pub trap_illegal_instruction : Trap
trap_illegal_instruction = record { cause = cause_illegal_instruction; badvaddr = none }

abbrev pub trap_privileged_instruction : Trap
trap_privileged_instruction = record { cause = cause_privileged_instruction; badvaddr = none }

abbrev pub trap_fp_disabled : Trap
trap_fp_disabled = record { cause = cause_fp_disabled; badvaddr = none }

-- FSR_AEXC, FSR_RD, their shifts, and PGSIZE - 1 of mmu.h.
abbrev pub fsr_aexc : ℕ
fsr_aexc = 0x1f

abbrev pub fsr_rd : ℕ
fsr_rd = 0xe0

abbrev pub fsr_rd_shift : ℕ
fsr_rd_shift = 5

abbrev pub page_mask : ℕ
page_mask = 2 ^ 13 - 1

-- The first call throws, so that the step ends and the counter is brought up to date; the
-- instruction is run again, and the second call goes through.
unfoldable pub serialize : M (Unit {0})
serialize m =
    if m.serialized
    then done tt (record m { serialized = false })
    else serialize_thrown (record m { serialized = true })

-- `deliver_ipi`, which is `set_pcr(CSR_CLEAR_IPI, 1)` on a hart that runs.
unfoldable pub deliver_ipi : Machine → Machine
unfolding set_interrupt
deliver_ipi m = if m.run then record m { state = set_interrupt irq_ipi true m.state } else m

-- `sim_t::send_ipi`: a hart that is there gets the interrupt. That of another hart is noted, and
-- is delivered before that hart runs again.
unfoldable pub send_ipi : ℕ → Machine → Machine
unfolding deliver_ipi
send_ipi who m =
    if ltb who m.nprocs
    then (if who == m.id then deliver_ipi m else record m { ipis = who ∷ m.ipis })
    else m

-- `validate_csr`: the privilege that the number of a control register asks for. `write_priv = -1`
-- is the largest unsigned value.
unfoldable pub validate_csr : ℕ → Bool → M ℕ
validate_csr which write m =
    let my_priv : ℕ = if has m.state.sr sr_s then 1 else 0 in
    let upper = bit_and (which / 2 ^ 10) 3 in
    let lower = bit_and (which / 2 ^ 8) 3 in
    let read_priv = if upper == 3 then lower else upper in
    let write_priv : ℕ = if upper == 3 then 2 ^ 32 - 1 else lower in
    if ltb my_priv (if write then write_priv else read_priv)
    then throw trap_privileged_instruction m
    else pure which m

module _ (b : Build) where
  unfoldable pub set_pcr : ℕ → ℕ → M (Unit {0})
  unfolding set_status set_interrupt set_fromhost serialize send_ipi
  set_pcr which val =
      if which == csr_fflags
      then modify_state (λ s. record s { fflags = bit_and val fsr_aexc })
      else if which == csr_frm
      then modify_state (λ s. record s { frm = bit_and val (fsr_rd / 2 ^ fsr_rd_shift) })
      else if which == csr_fcsr
      then modify_state (λ s. record s {
        fflags = bit_and val fsr_aexc;
        frm = bit_and val fsr_rd / 2 ^ fsr_rd_shift;
      })
      else if which == csr_status
      then modify (set_status b val)
      else if which == csr_epc
      then modify_state (λ s. record s { epc = val })
      else if which == csr_evec
      then modify_state (λ s. record s { evec = bit_and val (not64 3) })
      else if which == csr_count
      then modify_state (λ s. record s { count = val })
      else if which == csr_counth
      then modify_state (λ s. record s { count = bit_or (u64 (val * 2 ^ 32)) (u32 s.count) })
      else if which == csr_compare
      then (do
        serialize
        modify_state (set_interrupt irq_timer false)
        modify_state (λ s. record s { compare = u32 val }))
      else if which == csr_ptbr
      then modify_state (λ s. record s { ptbr = bit_and val (not64 page_mask) })
      else if which == csr_send_ipi
      then modify (send_ipi val)
      else if which == csr_clear_ipi
      then modify_state (set_interrupt irq_ipi (has val 1))
      else if which == csr_sup0
      then modify_state (λ s. record s { pcr_k0 = val })
      else if which == csr_sup1
      then modify_state (λ s. record s { pcr_k1 = val })
      else if which == csr_tohost
      then modify_state (λ s. record s { tohost = if s.tohost == 0 then val else s.tohost })
      else if which == csr_fromhost
      then modify_state (set_fromhost val)
      else pure tt

  unfoldable pub require_fp : M (Unit {0})
  require_fp m =
      if b.enable_fpu
      then (if has m.state.sr sr_ef then pure tt m else throw trap_fp_disabled m)
      else throw trap_illegal_instruction m

  -- The upper half of the counter, for a 32-bit program only.
  unfoldable pub high_count : M ℕ
  unfolding serialize
  high_count m =
      if m.rv64
      then throw trap_illegal_instruction m
      else (do serialize; gets (λ n. n.state.count / 2 ^ 32)) m

  -- `tick` is what one call of the host interface does, code of another package.
  module _ (tick : Machine → Machine) where
    unfoldable pub get_pcr : ℕ → M ℕ
    unfolding serialize high_count flush_tlb
    get_pcr which =
        if which == csr_fflags
        then (do require_fp; gets (λ m. m.state.fflags))
        else if which == csr_frm
        then (do require_fp; gets (λ m. m.state.frm))
        else if which == csr_fcsr
        then (do
          require_fp
          gets (λ m. bit_or m.state.fflags (u32 (m.state.frm * 2 ^ fsr_rd_shift))))
        else if which == csr_status
        then gets (λ m. m.state.sr)
        else if which == csr_epc
        then gets (λ m. m.state.epc)
        else if which == csr_badvaddr
        then gets (λ m. m.state.badvaddr)
        else if which == csr_evec
        then gets (λ m. m.state.evec)
        else if which == csr_cycle
            || which == csr_time
            || which == csr_instret
            || which == csr_count
        then (do serialize; gets (λ m. m.state.count))
        else if which == csr_cycleh
            || which == csr_timeh
            || which == csr_instreth
            || which == csr_counth
        then high_count
        else if which == csr_compare
        then gets (λ m. m.state.compare)
        else if which == csr_cause
        then gets (λ m. m.state.cause)
        else if which == csr_ptbr
        then gets (λ m. m.state.ptbr)
        else if which == csr_send_ipi || which == csr_clear_ipi || which == csr_asid
        then pure 0
        else if which == csr_fatc
        then (do modify (λ m. record m { mmu = flush_tlb m.mmu }); pure 0)
        else if which == csr_hartid
        then gets (λ m. m.id)
        else if which == csr_impl
        then pure 1
        else if which == csr_sup0
        then gets (λ m. m.state.pcr_k0)
        else if which == csr_sup1
        then gets (λ m. m.state.pcr_k1)
        else if which == csr_tohost
        then (do modify tick; gets (λ m. m.state.tohost))
        else if which == csr_fromhost
        then (do modify tick; gets (λ m. m.state.fromhost))
        else if leb csr_uarch0 which && leb which csr_uarch15
        then pure 0
        else throw trap_illegal_instruction
