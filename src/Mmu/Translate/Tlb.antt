-- ===== src/Mmu/Translate/Tlb.antt =====
-- The TLB against the page tables: the specification of `__translate`, and what the entries mean.
pub mod Refill
pub mod Main
use riscv_isa_sim.Base.{
  bit_and_field, ◌⊎◌, inl, inr, ℕ, zero, suc, ◌+◌, ◌-◌, ◌*◌, ◌/◌, ◌%◌, ◌^◌, ◌<◌, ◌≤◌, ◌≡◌, ◌≢◌, ◌∙◌,
  ap, ap₂, sym, refl, arith, Bool, true, false, ltb, ◌==◌, ◌&&◌, not, if◌then◌else◌, bit_and,
  bit_or, has, u64, add64, sub64, shl64, shr64, minus_one, bit_and_low, bit, bit-lt, has-two_pow,
  bit_and_step, bit_and-zero, bit-div, not64, bit_and_two_pow,
}
use riscv_isa_sim.Hart.Machine.{Machine, Mmu, M, Outcome, done, trapped, serialize_thrown}
use riscv_isa_sim.Isa.Encoding.{pte_ur, pte_uw, pte_ux}
use riscv_isa_sim.Hart.Machine.{HostPtr, main}
use riscv_isa_sim.Mmu.Walk.{walk, pgshift, pgsize}
use riscv_isa_sim.Mmu.Walk.Laws.{walk-page}
use riscv_isa_sim.Mmu.Translate.{
  translate_main, refill_tlb, fill_tlb, tlb_tag, tlb_index, page_base, effective_perm, wanted_perm,
  misaligned, access_fault, update,
}

-- The page tables allow the access.
abbrev pub permitted : Machine → Bool → Bool → ℕ → Bool
permitted m store fetch addr =
    let wanted = wanted_perm store fetch in
    bit_and (effective_perm m (walk m addr)) wanted == wanted

-- The translation that the page tables give, with no TLB.
unfoldable pub translate_walk : ℕ → ℕ → Bool → Bool → M HostPtr
translate_walk addr bytes store fetch m =
    if has addr (bytes - 1)
    then trapped (misaligned store fetch addr) m
    else if permitted m store fetch addr
    then done (main (add64 (page_base (walk m addr)) (addr % 2 ^ 13))) m
    else trapped (access_fault store fetch addr) m

-- Each entry is for a page of its index, which the page tables map as the entry does and with the
-- permission that the entry stands for.
pub record IsCoherent (m : Machine) : Type 0 where
  pub page_small :
      (store fetch : Bool) (i : ℕ)
      → i < 256
      → tlb_tag m.mmu store fetch i ≢ minus_one
      → tlb_tag m.mmu store fetch i < 2 ^ 51
  pub allowed :
      (store fetch : Bool) (i : ℕ)
      → i < 256
      → tlb_tag m.mmu store fetch i ≢ minus_one
      → permitted m store fetch (tlb_tag m.mmu store fetch i * 2 ^ 13) ≡ true
  pub mapped :
      (store fetch : Bool) (i : ℕ)
      → i < 256
      → tlb_tag m.mmu store fetch i ≢ minus_one
      → m.mmu.tlb_data i
        ≡ sub64
            (page_base (walk m (tlb_tag m.mmu store fetch i * 2 ^ 13)))
            (tlb_tag m.mmu store fetch i * 2 ^ 13)

module _ (m : Machine) (align : m.memsz % 2 ^ 13 ≡ 0) (c : IsCoherent m) where
  -- A hit returns what the walk would.
  pub hit :
      (addr : ℕ) (store fetch : Bool)
      → addr < 2 ^ 64
      → tlb_tag m.mmu store fetch (tlb_index addr) ≡ shr64 addr pgshift
      → (permitted m store fetch addr ≡ true)
        × (add64 (m.mmu.tlb_data (tlb_index addr)) addr
            ≡ add64 (page_base (walk m addr)) (addr % 2 ^ 13))
  hit addr store fetch h e = (
    ap (λ (pte : ℕ). bit_and (effective_perm m pte) wanted == wanted) (sym same)
        ∙ c.allowed store fetch (tlb_index addr) in_table set,
    omega (arith, c.mapped store fetch (tlb_index addr) in_table set, ap page_base same, e),
  )
    where
      wanted : ℕ
      wanted = wanted_perm store fetch

      tag : ℕ
      tag = tlb_tag m.mmu store fetch (tlb_index addr)

      in_table : tlb_index addr < 256
      in_table = unfold tlb_index in omega arith

      set : tag ≢ minus_one
      set = omega (arith, e)

      same : walk m (tag * 2 ^ 13) ≡ walk m addr
      same = walk-page m (tag * 2 ^ 13) addr (omega (arith, e)) h align (omega (arith, e))
