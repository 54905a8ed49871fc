-- ===== src/Isa/Encoding.antt =====
-- The constants of riscv/encoding.h: status register, interrupts, page table entries, control
-- registers and trap causes.
use riscv_isa_sim.Base.{ℕ, not32}

abbrev pub sr_s : ℕ
sr_s = 0x1

abbrev pub sr_ps : ℕ
sr_ps = 0x2

abbrev pub sr_ei : ℕ
sr_ei = 0x4

abbrev pub sr_pei : ℕ
sr_pei = 0x8

abbrev pub sr_ef : ℕ
sr_ef = 0x10

abbrev pub sr_u64 : ℕ
sr_u64 = 0x20

abbrev pub sr_s64 : ℕ
sr_s64 = 0x40

abbrev pub sr_vm : ℕ
sr_vm = 0x80

abbrev pub sr_ea : ℕ
sr_ea = 0x100

abbrev pub sr_im : ℕ
sr_im = 0xff0000

abbrev pub sr_ip : ℕ
sr_ip = 0xff000000

-- SR_ZERO is `~` of the named bits, at 32 bits.
abbrev pub sr_zero : ℕ
sr_zero = not32 0xffff_01ff

abbrev pub sr_im_shift : ℕ
sr_im_shift = 16

abbrev pub sr_ip_shift : ℕ
sr_ip_shift = 24

abbrev pub irq_cop : ℕ
irq_cop = 2

abbrev pub irq_ipi : ℕ
irq_ipi = 5

abbrev pub irq_host : ℕ
irq_host = 6

abbrev pub irq_timer : ℕ
irq_timer = 7

abbrev pub pte_v : ℕ
pte_v = 0x1

abbrev pub pte_t : ℕ
pte_t = 0x2

abbrev pub pte_g : ℕ
pte_g = 0x4

abbrev pub pte_ur : ℕ
pte_ur = 0x8

abbrev pub pte_uw : ℕ
pte_uw = 0x10

abbrev pub pte_ux : ℕ
pte_ux = 0x20

abbrev pub pte_sr : ℕ
pte_sr = 0x40

abbrev pub pte_sw : ℕ
pte_sw = 0x80

abbrev pub pte_sx : ℕ
pte_sx = 0x100

-- PTE_SR | PTE_SW | PTE_SX | PTE_UR | PTE_UW | PTE_UX
abbrev pub pte_perm : ℕ
pte_perm = 0x1f8

abbrev pub csr_fflags : ℕ
csr_fflags = 0x1

abbrev pub csr_frm : ℕ
csr_frm = 0x2

abbrev pub csr_fcsr : ℕ
csr_fcsr = 0x3

abbrev pub csr_stats : ℕ
csr_stats = 0xc0

abbrev pub csr_sup0 : ℕ
csr_sup0 = 0x500

abbrev pub csr_sup1 : ℕ
csr_sup1 = 0x501

abbrev pub csr_epc : ℕ
csr_epc = 0x502

abbrev pub csr_badvaddr : ℕ
csr_badvaddr = 0x503

abbrev pub csr_ptbr : ℕ
csr_ptbr = 0x504

abbrev pub csr_asid : ℕ
csr_asid = 0x505

abbrev pub csr_count : ℕ
csr_count = 0x506

abbrev pub csr_compare : ℕ
csr_compare = 0x507

abbrev pub csr_evec : ℕ
csr_evec = 0x508

abbrev pub csr_cause : ℕ
csr_cause = 0x509

abbrev pub csr_status : ℕ
csr_status = 0x50a

abbrev pub csr_hartid : ℕ
csr_hartid = 0x50b

abbrev pub csr_impl : ℕ
csr_impl = 0x50c

abbrev pub csr_fatc : ℕ
csr_fatc = 0x50d

abbrev pub csr_send_ipi : ℕ
csr_send_ipi = 0x50e

abbrev pub csr_clear_ipi : ℕ
csr_clear_ipi = 0x50f

abbrev pub csr_reset : ℕ
csr_reset = 0x51d

abbrev pub csr_tohost : ℕ
csr_tohost = 0x51e

abbrev pub csr_fromhost : ℕ
csr_fromhost = 0x51f

abbrev pub csr_cycle : ℕ
csr_cycle = 0xc00

abbrev pub csr_time : ℕ
csr_time = 0xc01

abbrev pub csr_instret : ℕ
csr_instret = 0xc02

abbrev pub csr_uarch0 : ℕ
csr_uarch0 = 0xcc0

abbrev pub csr_uarch1 : ℕ
csr_uarch1 = 0xcc1

abbrev pub csr_uarch2 : ℕ
csr_uarch2 = 0xcc2

abbrev pub csr_uarch3 : ℕ
csr_uarch3 = 0xcc3

abbrev pub csr_uarch4 : ℕ
csr_uarch4 = 0xcc4

abbrev pub csr_uarch5 : ℕ
csr_uarch5 = 0xcc5

abbrev pub csr_uarch6 : ℕ
csr_uarch6 = 0xcc6

abbrev pub csr_uarch7 : ℕ
csr_uarch7 = 0xcc7

abbrev pub csr_uarch8 : ℕ
csr_uarch8 = 0xcc8

abbrev pub csr_uarch9 : ℕ
csr_uarch9 = 0xcc9

abbrev pub csr_uarch10 : ℕ
csr_uarch10 = 0xcca

abbrev pub csr_uarch11 : ℕ
csr_uarch11 = 0xccb

abbrev pub csr_uarch12 : ℕ
csr_uarch12 = 0xccc

abbrev pub csr_uarch13 : ℕ
csr_uarch13 = 0xccd

abbrev pub csr_uarch14 : ℕ
csr_uarch14 = 0xcce

abbrev pub csr_uarch15 : ℕ
csr_uarch15 = 0xccf

abbrev pub csr_counth : ℕ
csr_counth = 0x586

abbrev pub csr_cycleh : ℕ
csr_cycleh = 0xc80

abbrev pub csr_timeh : ℕ
csr_timeh = 0xc81

abbrev pub csr_instreth : ℕ
csr_instreth = 0xc82

abbrev pub cause_misaligned_fetch : ℕ
cause_misaligned_fetch = 0x0

abbrev pub cause_fault_fetch : ℕ
cause_fault_fetch = 0x1

abbrev pub cause_illegal_instruction : ℕ
cause_illegal_instruction = 0x2

abbrev pub cause_privileged_instruction : ℕ
cause_privileged_instruction = 0x3

abbrev pub cause_fp_disabled : ℕ
cause_fp_disabled = 0x4

abbrev pub cause_syscall : ℕ
cause_syscall = 0x6

abbrev pub cause_breakpoint : ℕ
cause_breakpoint = 0x7

abbrev pub cause_misaligned_load : ℕ
cause_misaligned_load = 0x8

abbrev pub cause_misaligned_store : ℕ
cause_misaligned_store = 0x9

abbrev pub cause_fault_load : ℕ
cause_fault_load = 0xa

abbrev pub cause_fault_store : ℕ
cause_fault_store = 0xb

abbrev pub cause_accelerator_disabled : ℕ
cause_accelerator_disabled = 0xc

abbrev pub cause_tag_violation : ℕ
cause_tag_violation = 0xd
