-- ===== src/Mmu/Translate/Tlb/Main.antt =====
-- `translate_main` refines the walk of the page tables.
use riscv_isa_sim.Base.{
  refl, Bool-cases, inl, inr, ℕ, ◌-◌, ◌%◌, ◌^◌, ◌<◌, ◌≡◌, arith, Bool, ◌==◌, bit_and, has, shr64,
  bit_and_low,
}
use riscv_isa_sim.Hart.Machine.{HostPtr, Machine, Mmu, Outcome, done, trapped, serialize_thrown}
use riscv_isa_sim.Mmu.Walk.{pgshift, pgsize}
use riscv_isa_sim.Mmu.Translate.{fill_tlb, translate_main, refill_tlb, tlb_tag, tlb_index}
use riscv_isa_sim.Mmu.Tables.{flush_tlb}
use riscv_isa_sim.Mmu.Translate.Tlb.{translate_walk, permitted, IsCoherent, hit}
use riscv_isa_sim.Mmu.Translate.Tlb.Refill.{after, refilled}

-- A result of the walk on a machine whose TLB is another.
abbrev pub with_mmu : Mmu → Outcome HostPtr → Outcome HostPtr
with_mmu u (done p m) = done p (record m { mmu = u })
with_mmu u (trapped t m) = trapped t (record m { mmu = u })
with_mmu u (serialize_thrown m) = serialize_thrown (record m { mmu = u })

low_bits : (addr : ℕ) → bit_and addr (pgsize - 1) ≡ addr % 2 ^ 13
low_bits addr = bit_and_low 13 addr

-- With a memory of whole pages and a coherent TLB, whatever it holds of them, a translation returns
-- what the page tables give at the address, a host pointer or the trap, and it leaves a coherent
-- TLB and changes nothing else, the instruction cache included.
pub translate_main-walk :
    (m : Machine) (addr bytes : ℕ) (store fetch : Bool)
    → m.memsz % 2 ^ 13 ≡ 0
    → IsCoherent m
    → addr < 2 ^ 64
    → (u : Mmu) × (translate_main addr bytes store fetch m
        ≡ with_mmu u (translate_walk addr bytes store fetch m))
      × IsCoherent (record m { mmu = u })
      × (u.icache ≡ m.mmu.icache)
      × (u.has_no_tag ≡ m.mmu.has_no_tag)
unfolding translate_main refill_tlb translate_walk
translate_main-walk m addr bytes store fetch align c h = elim (Bool-cases (has addr (bytes - 1))) [
  | inl e ↦ (m.mmu, rw e, c, refl, refl)
  | inr e ↦ elim (Bool-cases (tlb_tag m.mmu store fetch (tlb_index addr) == shr64 addr pgshift)) [
    | inl same ↦ (
      m.mmu,
      rw (
        e,
        same,
        (hit m align c addr store fetch h (ground (arith, same))).0,
        (hit m align c addr store fetch h (ground (arith, same))).1,
      ),
      c,
      refl,
      refl,
    )
    | inr other ↦ elim (Bool-cases (permitted m store fetch addr)) [
      | inl ok ↦ (
        after m align c addr,
        rw (e, other, ok, low_bits addr),
        refilled m align c addr store fetch h ok,
        unfold fill_tlb in refl,
        unfold fill_tlb in refl,
      )
      | inr refused ↦ (m.mmu, rw (e, other, refused), c, refl, refl)
    ]
  ]
]

-- A flushed TLB is coherent, whatever the machine.
pub flush_tlb-IsCoherent : (m : Machine) → IsCoherent (record m { mmu = flush_tlb m.mmu })
unfolding flush_tlb tlb_tag
flush_tlb-IsCoherent m = record {
  page_small = λ s f i lt ne. ground (arith, ne);
  allowed = λ s f i lt ne. ground (arith, ne);
  mapped = λ s f i lt ne. ground (arith, ne);
}
