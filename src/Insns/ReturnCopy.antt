-- ===== src/Insns/ReturnCopy.antt =====
-- TAG_POLICY_NO_RETURN_COPY of riscv/insns/sd.h: a return address that is stored leaves the register.
use riscv_isa_sim.Base.{
  ℕ, ◌/◌, ◌%◌, ◌^◌, ◌<◌, ◌≡◌, ◌∙◌, refl, sym, subst, ap, arith, Bool, true, false, has, none, add64,
  u8, get_or-set_self,
}
use riscv_isa_sim.Build.{Build}
use riscv_isa_sim.Tags.{tag_pc, clear_pc_tag}
use riscv_isa_sim.Isa.Encoding.{sr_s}
use riscv_isa_sim.Isa.Insn.{rs2, s_imm}
use riscv_isa_sim.Hart.State.{State}
use riscv_isa_sim.Hart.RegFile.{read, read_tag, write_tag}
use riscv_isa_sim.Hart.RegFile.Laws.{IsValid}
use riscv_isa_sim.Hart.Machine.{Machine, Outcome, done, ◌>>=◌, ◌>>◌}
use riscv_isa_sim.Mmu.Walk.{walk, read_bytes}
use riscv_isa_sim.Mmu.Translate.{effective_perm}
use riscv_isa_sim.Mmu.Translate.Tlb.{IsCoherent}
use riscv_isa_sim.Mmu.Translate.Flat.{IsFlat}
use riscv_isa_sim.Mmu.Memory.{store_tagged}
use riscv_isa_sim.Mmu.Memory.Laws.{store_tagged-flat, stored, read_bytes-write_bytes}
use riscv_isa_sim.Insns.Macros.{
  rs1_val, rs2_val, tag_s2, is_supervisor, next_pc, write_reg_tag, require_xpr64,
}
use riscv_isa_sim.Insns.Jumps.{tag_trap_if}
use riscv_isa_sim.Insns.Memory.{
  rv_sd, store_insn, clear_stored_tag, is_data_access, return_register,
}

-- User mode, with the register file well formed and `enforce` at its default.
pub record IsUser (state : State) : Type 0 where
  pub mode : state.tag_mode ≡ 1
  pub user : has state.sr sr_s ≡ false
  pub valid : IsValid 32 true state.xpr

-- Stores go to the memory as it is, with their tags: virtual memory is off, nothing is watched, and
-- `has_no_tag` is clear.
pub record IsReady (m : Machine) : Type 0 where
  pub flat : IsFlat m
  pub coherent : IsCoherent m
  pub unwatched : m.watch ≡ none
  pub tagged : m.mmu.has_no_tag ≡ false

-- A trap of a tag, which stops the run after the step, changes none of this.
trap-IsReady : (test : Bool) (m : Machine) → IsReady m → IsReady (tag_trap_if test m)
unfolding tag_trap_if walk effective_perm
trap-IsReady false m r = r
trap-IsReady true m r = record {
  flat = record { no_tables = r.flat.no_tables; aligned = r.flat.aligned; small = r.flat.small };
  coherent = record {
    page_small = r.coherent.page_small;
    allowed = r.coherent.allowed;
    mapped = r.coherent.mapped;
  };
  unwatched = r.unwatched;
  tagged = r.tagged;
}

trap-state : (test : Bool) (m : Machine) → (tag_trap_if test m).state ≡ m.state
unfolding tag_trap_if
trap-state true m = refl
trap-state false m = refl

trap-memsz : (test : Bool) (m : Machine) → (tag_trap_if test m).memsz ≡ m.memsz
unfolding tag_trap_if
trap-memsz true m = refl
trap-memsz false m = refl

module _ (b : Build) (insn : ℕ) (policy : b.no_return_copy ≡ true)
    (reg : rs2 insn ≡ return_register) where
  -- The machine once the register has lost its tag.
  abbrev untag : Machine → Machine
  untag m = record m {
    state = record m.state {
      xpr = write_tag true return_register (clear_pc_tag tag_pc) m.state.xpr;
    };
  }

  cleared : (m : Machine) → IsUser m.state → clear_stored_tag b insn m ≡ done tt (untag m)
  unfolding clear_stored_tag write_reg_tag is_supervisor
  cleared m u = ground (arith, u.mode, u.user)

  value_kept :
      (m : Machine) → read (untag m).state.xpr return_register ≡ read m.state.xpr return_register
  unfolding read write_tag
  value_kept m = refl

  untagged :
      (m : Machine)
      → IsUser m.state
      → has (read_tag (untag m).state.xpr return_register) tag_pc ≡ false
  unfolding read_tag write_tag clear_pc_tag
  untagged m u = ground (
    arith,
    get_or-set_self m.state.xpr.tags return_register (u8 (clear_pc_tag tag_pc)) 0,
    u.valid.tags_length,
  )

  -- What holds once the return address has moved to an address of the memory.
  abbrev pub Moved : (value tag addr : ℕ) → Machine → Type 0
  Moved value tag addr m =
      (read_bytes m.mem 8 addr ≡ value % 256 ^ 8)
      × (read_bytes m.tagmem 1 (addr / 8) ≡ tag % 256 ^ 1)
      × (read m.state.xpr return_register ≡ value)
      × (has (read_tag m.state.xpr return_register) tag_pc ≡ false)

  -- The store of a register of a state, and what follows it.
  abbrev store_from : (i : ℕ) → State → Machine → (pc addr : ℕ) → Outcome ℕ
  store_from i s m pc addr =
      (do
        store_tagged 8 addr (read s.xpr i) (read_tag s.xpr i)
        clear_stored_tag b insn
        done (next_pc true pc))
        m

  move :
      (m : Machine) (pc addr : ℕ)
      → IsUser m.state
      → IsReady m
      → addr < m.memsz
      → has addr 7 ≡ false
      → (after : Machine) × (store_from return_register m.state m pc addr
          ≡ done (next_pc true pc) after)
        × Moved (read m.state.xpr return_register) (read_tag m.state.xpr return_register) addr after
  move m pc addr u r inside aligned =
      let value = read m.state.xpr return_register in
      let tag = read_tag m.state.xpr return_register in
      let (mmu, accesses, written, _) =
        store_tagged-flat m r.flat r.coherent r.unwatched r.tagged 8 addr value tag inside
          aligned in
      let m2 : Machine =
        stored m r.flat r.coherent r.unwatched r.tagged mmu accesses 8 addr value tag in
      (
        untag m2,
        rw (◌>>=◌, written, cleared m2 u) refl,
        (
          read_bytes-write_bytes m.mem 8 addr value,
          read_bytes-write_bytes m.tagmem 1 (addr / 8) tag,
          value_kept m2,
          untagged m2 u,
        ),
      )

  -- Under TAG_POLICY_NO_RETURN_COPY the 64-bit `sd` of the register of returns moves a return address:
  -- in user mode, with the tag mode of the reset and virtual memory off, to an aligned address in the
  -- memory, it goes on to the next instruction, memory then holds the value of the register and its
  -- tag, and the register has the value without the tag of a code address. (No address is watched,
  -- `has_no_tag` is clear, the TLB is coherent and the register file well formed.)
  pub rv_sd-return_register :
      (pc : ℕ) (m : Machine)
      → IsUser m.state
      → IsReady m
      → add64 (rs1_val insn m) (s_imm insn) < m.memsz
      → has (add64 (rs1_val insn m) (s_imm insn)) 7 ≡ false
      → (after : Machine) × (rv_sd b true insn pc m ≡ done (next_pc true pc) after)
        × Moved
            (read m.state.xpr return_register)
            (read_tag m.state.xpr return_register)
            (add64 (rs1_val insn m) (s_imm insn))
            after
  unfolding rv_sd require_xpr64 store_insn rs2_val tag_s2
  rv_sd-return_register pc m u r inside aligned =
      let addr = add64 (rs1_val insn m) (s_imm insn) in
      let test = is_data_access b insn addr m in
      let same = trap-state test m in
      let (after, run, moved) =
        move (tag_trap_if test m) pc addr (subst IsUser (sym same) u) (trap-IsReady test m r)
          (omega (arith, trap-memsz test m, inside)) aligned in
      (
        after,
        ap (λ i. store_from i m.state (tag_trap_if test m) pc addr) reg
            ∙ ap (λ s. store_from return_register s (tag_trap_if test m) pc addr) (sym same)
            ∙ run,
        subst
            (λ (s : State).
              Moved (read s.xpr return_register) (read_tag s.xpr return_register) addr after)
            same moved,
      )
