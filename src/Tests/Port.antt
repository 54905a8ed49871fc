-- ===== src/Tests/Port.antt =====
-- The port into memory and the watched location at concrete machines.
use riscv_isa_sim.Base.{
  ◌/◌, ◌+◌, ◌+◌, ◌^◌, ◌%◌, ◌≤◌, ◌≢◌, ℕ, ◌<◌, ◌≡◌, ◌⊎◌, refl, arith, true, false, List, [], ◌∷◌,
  shl64, shr64,
}
use riscv_isa_sim.Tests.Machines.{machine, old_ring}
use riscv_isa_sim.Hart.Machine.{done, Machine, Mmu}
use riscv_isa_sim.Mmu.Tables.{flush_tlb}
use riscv_isa_sim.Mmu.Walk.{walk}
use riscv_isa_sim.Mmu.Walk.Laws.{walk-page, walk-in_memory}
use riscv_isa_sim.Mmu.Translate.{translate_main}
use riscv_isa_sim.Mmu.Translate.Tlb.{translate_walk, IsCoherent}
use riscv_isa_sim.Mmu.Translate.Tlb.Main.{with_mmu, translate_main-walk, flush_tlb-IsCoherent}
use riscv_isa_sim.Mmu.Translate.Flat.{IsFlat}
use riscv_isa_sim.Mmu.Memory.{store_tagged, load_tagged, extend}
use riscv_isa_sim.Mmu.Memory.Laws.{load_tagged-store_tagged}
use riscv_isa_sim.WatchLoc.{update_addr, get_nth_recent_access}
use riscv_isa_sim.WatchLoc.Laws.{run, get_nth_recent_access-run, update_addr_keeps_stale}

abbrev flushed : Machine
flushed = record machine { mmu = flush_tlb machine.mmu }

flushed-IsCoherent : IsCoherent flushed
flushed-IsCoherent = flush_tlb-IsCoherent machine

translate_main-walk_example :
    (u : Mmu) × (translate_main 0x2008 8 true false flushed
      ≡ with_mmu u (translate_walk 0x2008 8 true false flushed))
    × IsCoherent (record flushed { mmu = u })
    × (u.icache ≡ flushed.mmu.icache)
    × (u.has_no_tag ≡ flushed.mmu.has_no_tag)
translate_main-walk_example =
    translate_main-walk flushed 0x2008 8 true false refl flushed-IsCoherent (omega arith)

walk-page_example : walk machine 0x2008 ≡ walk machine 0x3ff8
walk-page_example = walk-page machine 0x2008 0x3ff8 (omega arith) (omega arith) refl refl

walk-in_memory_example :
    (walk machine 0x2008 ≡ 0) ⊎ (shl64 (shr64 (walk machine 0x2008) 13) 13 < machine.memsz)
walk-in_memory_example = walk-in_memory machine 0x2008 (omega arith)

abbrev stores : List (ℕ × ℕ)
stores = (8, 0x2010) ∷ (16, 0x200c) ∷ (8, 0x2008) ∷ []

get_nth_recent_access-run_example : get_nth_recent_access 1 (run stores old_ring) ≡ 0x2008
get_nth_recent_access-run_example =
    get_nth_recent_access-run stores old_ring 1 (omega arith) (omega arith) (omega arith)

update_addr_keeps_stale_example : get_nth_recent_access 1 (update_addr 24 old_ring) ≡ 1028
update_addr_keeps_stale_example = update_addr_keeps_stale old_ring 24 1 (omega arith) (omega arith)

flat : IsFlat flushed
flat = record { no_tables = refl; aligned = refl; small = omega arith }

load_tagged-store_tagged_example :
    (m' : Machine) × (m'' : Machine) × (store_tagged 4 0x2008 0x1_ffff_fffe 5 flushed ≡ done tt m')
    × (load_tagged 0 4 true 0x2008 m'
        ≡ done (record { val = extend 4 true (0x1_ffff_fffe % 256 ^ 4); tag = 5 % 256 }) m'')
    × IsCoherent m'
    × ((a : ℕ) → (a < 0x2008) ⊎ (0x2008 + 4 ≤ a) → m'.mem a ≡ flushed.mem a)
    × ((w : ℕ) → w ≢ 0x2008 / 8 → m'.tagmem w ≡ flushed.tagmem w)
unfolding flush_tlb
load_tagged-store_tagged_example =
    load_tagged-store_tagged flushed 0 4 0x2008 0x1_ffff_fffe 5 true flat flushed-IsCoherent refl
      refl (omega arith) refl
