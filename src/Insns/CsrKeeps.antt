-- ===== src/Insns/CsrKeeps.antt =====
-- The instructions on control registers leave the integer registers but the destination alone.
use riscv_isa_sim.Base.{
  ◌||◌, ◌&&◌, leb, bit_and, bit_or, not64, u32, u64, ◌*◌, ◌^◌, not, has, ltb, ◌∷◌, ℕ, ◌/◌, ◌==◌,
  Bool, true, false, if◌then◌else◌,
}
use riscv_isa_sim.Build.{Build}
use riscv_isa_sim.Tags.{tag_csr}
use riscv_isa_sim.Isa.Encoding.{
  csr_fflags, csr_frm, csr_fcsr, csr_status, csr_epc, csr_badvaddr, csr_evec, csr_count, csr_counth,
  csr_cycle, csr_time, csr_instret, csr_cycleh, csr_timeh, csr_instreth, csr_compare, csr_cause,
  csr_ptbr, csr_send_ipi, csr_clear_ipi, csr_asid, csr_fatc, csr_hartid, csr_impl, csr_sup0,
  csr_sup1, csr_tohost, csr_fromhost, csr_uarch0, csr_uarch15, irq_host, irq_ipi, irq_timer,
}
use riscv_isa_sim.Isa.Insn.{csr}
use riscv_isa_sim.Hart.State.{State}
use riscv_isa_sim.Hart.Machine.{Machine, Trap, M, gets, modify, modify_state, pure, throw, ◌>>◌}
use riscv_isa_sim.Hart.Keeps.{returned, threw, threw_serialize, Keeps, After-bind, After-if}
use riscv_isa_sim.Hart.Status.{set_status}
use riscv_isa_sim.Hart.Interrupt.{set_interrupt, set_fromhost}
use riscv_isa_sim.Hart.Csr.{
  trap_illegal_instruction, fsr_aexc, fsr_rd, fsr_rd_shift, page_mask, validate_csr, get_pcr,
  set_pcr, serialize, send_ipi, deliver_ipi, high_count, require_fp,
}
use riscv_isa_sim.Mmu.Tables.{flush_tlb}
use riscv_isa_sim.Insns.Macros.{sext_xprlen}
use riscv_isa_sim.Insns.System.{csr_insn}
use riscv_isa_sim.Insns.Keeps.{V, IsValidXpr, result-Keeps}

Keeps-if :
    {A : Type 0} (test : Bool) (f g : M A) → Keeps V f → Keeps V g → Keeps V (if test then f else g)
Keeps-if true f g k k' = k
Keeps-if false f g k k' = k'

gets-Keeps : {A : Type 0} (f : Machine → A) → Keeps V (gets f)
gets-Keeps f m v = returned _ m v

pure-Keeps : {A : Type 0} (a : A) → Keeps V (pure a)
pure-Keeps a m v = returned a m v

throw-Keeps : {A : Type 0} (t : Trap) → Keeps V (throw {A = A} t)
throw-Keeps t m v = threw t m v

modify-Keeps : (f : Machine → Machine) → ((m : Machine) → V m → V (f m)) → Keeps V (modify f)
modify-Keeps f keep m v = returned tt (f m) (keep m v)

modify_state-Keeps :
    (f : State → State) → ((s : State) → IsValidXpr s → IsValidXpr (f s)) → Keeps V (modify_state f)
modify_state-Keeps f keep m v = returned tt (record m { state = f m.state }) (keep m.state v)

serialize-Keeps : Keeps V serialize
unfolding serialize
serialize-Keeps m v =
    After-if _ _ _ (returned tt (record m { serialized = false }) v)
      (threw_serialize (record m { serialized = true }) v)

then-Keeps :
    {A : Type 0} (first : M (Unit {0})) (rest : M A)
    → Keeps V first
    → Keeps V rest
    → Keeps V (first >> rest)
then-Keeps first rest k k' m v = After-bind first (λ _. rest) m (k m v) (λ _. k')

pub require_fp-Keeps : (b : Build) → Keeps V (require_fp b)
unfolding require_fp
require_fp-Keeps b m v =
    After-if _ _ _ (After-if _ _ _ (returned tt m v) (threw _ m v)) (threw _ m v)

high_count-Keeps : (b : Build) → Keeps V (high_count b)
unfolding high_count
high_count-Keeps b m v =
    After-if _ _ _ (threw _ m v) (then-Keeps serialize _ serialize-Keeps (gets-Keeps _) m v)

set_interrupt-V :
    (which : ℕ) (on : Bool) (s : State) → IsValidXpr s → IsValidXpr (set_interrupt which on s)
unfolding set_interrupt
set_interrupt-V which true s v = v
set_interrupt-V which false s v = v

set_fromhost-V : (val : ℕ) (s : State) → IsValidXpr s → IsValidXpr (set_fromhost val s)
unfolding set_fromhost
set_fromhost-V val s v = set_interrupt-V irq_host (not (val == 0)) s v

V-if : (test : Bool) (m m' : Machine) → V m → V m' → V (if test then m else m')
V-if true m m' v v' = v
V-if false m m' v v' = v'

pub deliver_ipi-V : (m : Machine) → V m → V (deliver_ipi m)
unfolding deliver_ipi
deliver_ipi-V m v =
    V-if m.run (record m { state = set_interrupt irq_ipi true m.state }) m
      (set_interrupt-V irq_ipi true m.state v) v

send_ipi-V : (who : ℕ) (m : Machine) → V m → V (send_ipi who m)
unfolding send_ipi
send_ipi-V who m v =
    V-if (ltb who m.nprocs)
      (if who == m.id then deliver_ipi m else record m { ipis = who ∷ m.ipis }) m
      (V-if (who == m.id) (deliver_ipi m) (record m { ipis = who ∷ m.ipis }) (deliver_ipi-V m v) v)
      v

set_status-V : (b : Build) (val : ℕ) (m : Machine) → V m → V (set_status b val m)
unfolding set_status
set_status-V b val m v = v

validate_csr-Keeps : (which : ℕ) (write : Bool) → Keeps V (validate_csr which write)
unfolding validate_csr
validate_csr-Keeps which write m v = After-if _ _ _ (threw _ m v) (returned _ m v)

set_pcr-Keeps : (b : Build) (which val : ℕ) → Keeps V (set_pcr b which val)
unfolding set_pcr
set_pcr-Keeps b which val =
    let plain = λ (s : State) (v : IsValidXpr s). v in
    Keeps-if _ _ _ (modify_state-Keeps (λ s. record s { fflags = bit_and val fsr_aexc }) plain) (
      Keeps-if _ _ _
        (modify_state-Keeps (λ s. record s { frm = bit_and val (fsr_rd / 2 ^ fsr_rd_shift) }) plain)
        (Keeps-if _ _ _
          (modify_state-Keeps
            (λ s. record s {
              fflags = bit_and val fsr_aexc;
              frm = bit_and val fsr_rd / 2 ^ fsr_rd_shift;
            })
            plain)
          (Keeps-if _ _ _ (modify-Keeps (set_status b val) (set_status-V b val)) (
            Keeps-if _ _ _ (modify_state-Keeps (λ s. record s { epc = val }) plain) (
              Keeps-if _ _ _
                (modify_state-Keeps (λ s. record s { evec = bit_and val (not64 3) }) plain)
                (Keeps-if _ _ _ (modify_state-Keeps (λ s. record s { count = val }) plain) (
                  Keeps-if _ _ _
                    (modify_state-Keeps
                      (λ s. record s { count = bit_or (u64 (val * 2 ^ 32)) (u32 s.count) }) plain)
                    (Keeps-if _ _ _
                      (then-Keeps serialize _ serialize-Keeps (
                        then-Keeps (modify_state (set_interrupt irq_timer false)) _
                          (modify_state-Keeps (set_interrupt irq_timer false)
                            (set_interrupt-V irq_timer false))
                          (modify_state-Keeps (λ s. record s { compare = u32 val }) plain)))
                      (Keeps-if _ _ _
                        (modify_state-Keeps (λ s. record s { ptbr = bit_and val (not64 page_mask) })
                          plain)
                        (Keeps-if _ _ _ (modify-Keeps (send_ipi val) (send_ipi-V val)) (
                          Keeps-if _ _ _
                            (modify_state-Keeps (set_interrupt irq_ipi (has val 1))
                              (set_interrupt-V irq_ipi (has val 1)))
                            (Keeps-if _ _ _
                              (modify_state-Keeps (λ s. record s { pcr_k0 = val }) plain)
                              (Keeps-if _ _ _
                                (modify_state-Keeps (λ s. record s { pcr_k1 = val }) plain)
                                (Keeps-if _ _ _
                                  (modify_state-Keeps
                                    (λ s. record s {
                                      tohost = if s.tohost == 0 then val else s.tohost;
                                    })
                                    plain)
                                  (Keeps-if _ _ _
                                    (modify_state-Keeps (set_fromhost val) (set_fromhost-V val))
                                    (pure-Keeps tt))))))))))))))))

module _ (b : Build) (tick : Machine → Machine) (tick-V : (m : Machine) → V m → V (tick m)) where
  get_pcr-Keeps : (which : ℕ) → Keeps V (get_pcr b tick which)
  unfolding get_pcr
  get_pcr-Keeps which =
      Keeps-if (which == csr_fflags) _ _
        (then-Keeps (require_fp b) (gets (λ m. m.state.fflags)) (require_fp-Keeps b)
          (gets-Keeps (λ m. m.state.fflags)))
        (Keeps-if (which == csr_frm) _ _
          (then-Keeps (require_fp b) (gets (λ m. m.state.frm)) (require_fp-Keeps b)
            (gets-Keeps (λ m. m.state.frm)))
          (Keeps-if (which == csr_fcsr) _ _
            (then-Keeps (require_fp b)
              (gets (λ m. bit_or m.state.fflags (u32 (m.state.frm * 2 ^ fsr_rd_shift))))
              (require_fp-Keeps b)
              (gets-Keeps (λ m. bit_or m.state.fflags (u32 (m.state.frm * 2 ^ fsr_rd_shift)))))
            (Keeps-if (which == csr_status) _ _ (gets-Keeps (λ m. m.state.sr)) (
              Keeps-if (which == csr_epc) _ _ (gets-Keeps (λ m. m.state.epc)) (
                Keeps-if (which == csr_badvaddr) _ _ (gets-Keeps (λ m. m.state.badvaddr)) (
                  Keeps-if (which == csr_evec) _ _ (gets-Keeps (λ m. m.state.evec)) (
                    Keeps-if
                      (which == csr_cycle
                        || which == csr_time
                        || which == csr_instret
                        || which == csr_count)
                      _ _
                      (then-Keeps serialize (gets (λ m. m.state.count)) serialize-Keeps
                        (gets-Keeps (λ m. m.state.count)))
                      (Keeps-if
                        (which == csr_cycleh
                          || which == csr_timeh
                          || which == csr_instreth
                          || which == csr_counth)
                        _ _ (high_count-Keeps b)
                        (Keeps-if (which == csr_compare) _ _ (gets-Keeps (λ m. m.state.compare)) (
                          Keeps-if (which == csr_cause) _ _ (gets-Keeps (λ m. m.state.cause)) (
                            Keeps-if (which == csr_ptbr) _ _ (gets-Keeps (λ m. m.state.ptbr)) (
                              Keeps-if
                                (which == csr_send_ipi
                                  || which == csr_clear_ipi
                                  || which == csr_asid)
                                _ _ (pure-Keeps 0)
                                (Keeps-if (which == csr_fatc) _ _
                                  (then-Keeps (modify (λ m. record m { mmu = flush_tlb m.mmu }))
                                    (pure 0)
                                    (modify-Keeps (λ m. record m { mmu = flush_tlb m.mmu })
                                      (λ m v. v))
                                    (pure-Keeps 0))
                                  (Keeps-if (which == csr_hartid) _ _ (gets-Keeps (λ m. m.id)) (
                                    Keeps-if (which == csr_impl) _ _ (pure-Keeps 1) (
                                      Keeps-if (which == csr_sup0) _ _
                                        (gets-Keeps (λ m. m.state.pcr_k0))
                                        (Keeps-if (which == csr_sup1) _ _
                                          (gets-Keeps (λ m. m.state.pcr_k1))
                                          (Keeps-if (which == csr_tohost) _ _
                                            (then-Keeps (modify tick) (gets (λ m. m.state.tohost))
                                              (modify-Keeps tick tick-V)
                                              (gets-Keeps (λ m. m.state.tohost)))
                                            (Keeps-if (which == csr_fromhost) _ _
                                              (then-Keeps (modify tick)
                                                (gets (λ m. m.state.fromhost))
                                                (modify-Keeps tick tick-V)
                                                (gets-Keeps (λ m. m.state.fromhost)))
                                              (Keeps-if
                                                (leb csr_uarch0 which && leb which csr_uarch15) _ _
                                                (pure-Keeps 0)
                                                (throw-Keeps
                                                  trap_illegal_instruction)))))))))))))))))))))

  pub csr_insn-Keeps :
      (write : Bool) (value : ℕ → Machine → ℕ) (xpr64 : Bool) (insn pc : ℕ)
      → Keeps V (csr_insn b tick write value xpr64 insn pc)
  unfolding csr_insn
  csr_insn-Keeps write value xpr64 insn pc m v =
      After-bind (validate_csr (csr insn) write) _ m (validate_csr-Keeps (csr insn) write m v)
        (λ which m1 v1.
          After-bind (get_pcr b tick which) _ m1 (get_pcr-Keeps which m1 v1) (λ old m2 v2.
            After-bind (set_pcr b which (value old m2)) _ m2
              (set_pcr-Keeps b which (value old m2) m2 v2)
              (λ _. result-Keeps xpr64 insn pc (sext_xprlen xpr64 old) tag_csr)))
