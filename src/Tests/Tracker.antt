-- ===== src/Tests/Tracker.antt =====
-- Runs of the tracker and of the search of the disassembler at concrete inputs.
use riscv_isa_sim.Base.{
  ◌≤◌, ℕ, suc, ◌+◌, ◌≡◌, ◌≢◌, refl, false, not, ltb, max, Option, none, some, List, [], ◌∷◌, arith,
}
use riscv_isa_sim.Isa.Insn.{rd, rs1, rs2}
use riscv_isa_sim.Disasm.{in_memory, in_reg, lookup, lookup_args, no_chains, add_insns, find_insn}
use riscv_isa_sim.Disasm.Table.{disasm_entries, disassembler}
use riscv_isa_sim.Disasm.Laws.{is_hashed, keep, or_else, lookup-add_insns}
use riscv_isa_sim.Tracker.Store.{Heap, node_at, is_there, total}
use riscv_isa_sim.Tracker.Graph.{
  Tracker, Call, call_track, call_load, call_store, new_tracker, track_calls,
}
use riscv_isa_sim.Tracker.Balance.{kids, refc_at}
use riscv_isa_sim.Tracker.Slots.{slots}
use riscv_isa_sim.Tracker.Legal.{AllLegal, track_calls_legal}
use riscv_isa_sim.Disasm.Found.{any_matches}
use riscv_isa_sim.Isa.Opcodes.{registered}

-- An allocator: the address after all that are in use.
top : Heap → ℕ
top [] = 1
top ((p, n) ∷ rest) = max (p + 1) (top rest)

top-ne-null : (h : Heap) → top h ≢ 0
unfolding top
top-ne-null [] e = omega arith
top-ne-null ((p, n) ∷ rest) e = omega arith

above_top : (h : Heap) (p : ℕ) → top h ≤ p → node_at h p ≡ none
unfolding top node_at
above_top [] p e = refl
above_top ((q, n) ∷ rest) p e = ground (arith, above_top rest p)

-- `addi x5, x0, 1`, `sd x5, 8(x2)`, `ld x6, 8(x2)`, `add x5, x6, x6`.
abbrev calls : List Call
calls =
    call_track 0x00100293 0x100
    ∷ (call_track 0x00513423 0x104
        ∷ (call_store 8 0x2008
            ∷ (call_track 0x00813303 0x108 ∷ (call_load 8 ∷ (call_track 0x006302b3 0x10c ∷ [])))))

addi_sources : lookup_args disassembler 0x00100293 ≡ some (in_reg 5 ∷ [])
unfolding lookup_args disassembler rd
addi_sources = refl

sd_sources : lookup_args disassembler 0x00513423 ≡ some (in_reg 5 ∷ (in_memory ∷ []))
unfolding lookup_args disassembler rs2
sd_sources = refl

ld_sources : lookup_args disassembler 0x00813303 ≡ some (in_reg 6 ∷ (in_memory ∷ []))
unfolding lookup_args disassembler rd
ld_sources = refl

add_sources : lookup_args disassembler 0x006302b3 ≡ some (in_reg 5 ∷ (in_reg 6 ∷ (in_reg 6 ∷ [])))
unfolding lookup_args disassembler rd rs1 rs2
add_sources = refl

-- A word that is no instruction has no entry, and `lookup_args` reads through NULL.
unknown_word : lookup_args disassembler 0 ≡ none
unfolding lookup_args disassembler
unknown_word = refl

abbrev counts : Option Tracker → List ℕ
counts none = []
counts (some t) =
    refc_at t.nodes 1 ∷ (refc_at t.nodes 2 ∷ (refc_at t.nodes 3 ∷ (refc_at t.nodes 4 ∷ [])))

-- The node of `addi`, which the store holds, the one of the store, which the load holds, the load's,
-- which the sum holds twice, and the one of the sum.
counts_run :
    counts (track_calls top 7 (lookup_args disassembler) calls (new_tracker 2 0 0 false))
    ≡ (1 ∷ (2 ∷ (3 ∷ (1 ∷ []))))
unfolding track_calls new_tracker top lookup_args disassembler rd rs1 rs2
counts_run = refl

calls-AllLegal : AllLegal 2 calls
unfolding any_matches registered
calls-AllLegal = (refl, (refl, (omega arith, (refl, (omega arith, (refl, tt))))))

track_calls_legal_example :
    (t : Tracker) × (track_calls top 7 (lookup_args disassembler) calls (new_tracker 2 0 0 false)
      ≡ some t)
    × ((x : ℕ) → slots t (suc x) + total (kids (suc x)) t.nodes ≡ refc_at t.nodes (suc x))
    × ((x : ℕ) → ltb 0 (slots t (suc x) + total (kids (suc x)) t.nodes) ≡ is_there t.nodes (suc x))
track_calls_legal_example =
    track_calls_legal top 7 top-ne-null (λ h. above_top h (top h) (omega arith)) 2 calls 0 0 false
      calls-AllLegal (omega arith)

lookup-add_insns_example :
    lookup (add_insns disasm_entries no_chains) 0x33
    ≡ or_else
        (find_insn (keep is_hashed disasm_entries) 0x33)
        (find_insn (keep (λ entry. not (is_hashed entry)) disasm_entries) 0x33)
lookup-add_insns_example = lookup-add_insns disasm_entries 0x33
