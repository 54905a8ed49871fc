-- ===== src/Tracker/Legal.antt =====
-- The tracker of riscv/tracker.cc with the disassembler of spike_main/disasm.cc, in a run of legal
-- instructions.
use riscv_isa_sim.Base.{
  ◌*◌, ◌^◌, length, ℕ, suc, ◌+◌, ◌/◌, ◌<◌, ◌≡◌, ◌≢◌, Bool, true, ltb, none, some, List, [], ◌∷◌,
}
use riscv_isa_sim.Isa.Opcodes.{registered}
use riscv_isa_sim.Mmu.Memory.{mem_to_tag_ratio}
use riscv_isa_sim.Disasm.{lookup_args}
use riscv_isa_sim.Disasm.Table.{disassembler}
use riscv_isa_sim.Disasm.Entries.{lookup_args-in_order}
use riscv_isa_sim.Disasm.Found.{any_matches, lookup_args-any_matches}
use riscv_isa_sim.Tracker.Store.{Heap, node_at, is_there, total}
use riscv_isa_sim.Tracker.Graph.{
  Tracker, Call, call_track, call_load, call_store, new_tracker, track_calls,
}
use riscv_isa_sim.Tracker.Balance.{kids, refc_at}
use riscv_isa_sim.Tracker.Slots.{slots}
use riscv_isa_sim.Tracker.Runs.{AllKnown, track_calls_count}

-- The word is of a registered instruction, or the address has a tag.
abbrev pub IsLegal : ℕ → Call → Type 0
IsLegal sz (call_track insn pc) = any_matches registered insn ≡ true
IsLegal sz (call_load paddr) = paddr / mem_to_tag_ratio < sz
IsLegal sz (call_store paddr addr) = paddr / mem_to_tag_ratio < sz

abbrev pub AllLegal : ℕ → List Call → Type 0
AllLegal sz [] = Unit {0}
AllLegal sz (call ∷ rest) = IsLegal sz call × AllLegal sz rest

AllLegal-AllKnown :
    (sz : ℕ) (calls : List Call) → AllLegal sz calls → AllKnown (lookup_args disassembler) sz calls
AllLegal-AllKnown sz [] legal = tt
AllLegal-AllKnown sz (call_track insn pc ∷ rest) legal =
    (lookup_args-any_matches insn legal.0, AllLegal-AllKnown sz rest legal.1)
AllLegal-AllKnown sz (call_load paddr ∷ rest) legal = (legal.0, AllLegal-AllKnown sz rest legal.1)
AllLegal-AllKnown sz (call_store paddr addr ∷ rest) legal =
    (legal.0, AllLegal-AllKnown sz rest legal.1)

-- A run of calls from the constructor on, with the arguments that the disassembler finds, ends, and
-- accesses no freed node. After it, the count of every node is the number of references to it from
-- the registers, from memory and from other nodes, and a node is allocated exactly if there is such
-- a reference: nothing leaks and nothing dangles. So it is where the words are of registered
-- instructions, where the addresses have tags, where `malloc` returns the address of no node and
-- not NULL, and where `sz`, the number of tags, and the calls are too few for a count, an int, to
-- overflow: 34 + sz + 2 * calls is below 2 ^ 31.
pub track_calls_legal :
    (malloc : Heap → ℕ) (garbage : ℕ)
    → ((h : Heap) → malloc h ≢ 0)
    → ((h : Heap) → node_at h (malloc h) ≡ none)
    → (sz : ℕ) (calls : List Call) (insn pc : ℕ) (is_mem : Bool) → AllLegal sz calls
    → 34 + sz + 2 * length calls < 2 ^ 31
    → (t : Tracker) × (track_calls malloc garbage
          (lookup_args disassembler)
          calls
          (new_tracker sz insn pc is_mem)
        ≡ some t)
      × ((x : ℕ) → slots t (suc x) + total (kids (suc x)) t.nodes ≡ refc_at t.nodes (suc x))
      × ((x : ℕ)
          → ltb 0 (slots t (suc x) + total (kids (suc x)) t.nodes) ≡ is_there t.nodes (suc x))
track_calls_legal malloc garbage malloc-ne-null malloc-fresh sz calls insn pc is_mem legal room =
    track_calls_count malloc garbage malloc-ne-null malloc-fresh (lookup_args disassembler)
      lookup_args-in_order sz calls insn pc is_mem (AllLegal-AllKnown sz calls legal) room
