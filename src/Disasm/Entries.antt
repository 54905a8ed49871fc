-- ===== src/Disasm/Entries.antt =====
-- What the entries of spike_main/disasm.cc have in common.
use riscv_isa_sim.Base.{
  sym, ◌⊎◌, ap, ℕ, ◌≡◌, refl, ◌∙◌, inl, inr, Bool, true, false, ◌&&◌, not, Option-cases, Option,
  none, some, List, [], ◌∷◌, arith,
}
use riscv_isa_sim.Disasm.{
  Source, Arg, load_address, store_address, DisasmInsn, src, find_insn, lookup, arg_sources,
  lookup_args,
}
use riscv_isa_sim.Disasm.Table.{disasm_entries, disassembler}
use riscv_isa_sim.Disasm.Laws.{is_hashed, keep, or_else, lookup-add_insns}
use riscv_isa_sim.Tracker.Graph.{starts_in_memory}

-- Every entry of a list passes a test.
unfoldable pub all_pass : (DisasmInsn → Bool) → List DisasmInsn → Bool
all_pass test [] = true
all_pass test (entry ∷ rest) = test entry && all_pass test rest

all_pass-keep :
    (test which : DisasmInsn → Bool) (entries : List DisasmInsn)
    → all_pass test entries ≡ true
    → all_pass test (keep which entries) ≡ true
unfolding all_pass
all_pass-keep test which [] all = refl
all_pass-keep test which (entry ∷ rest) all = ground (arith, all_pass-keep test which rest)

find_insn-all_pass :
    (test : DisasmInsn → Bool) (entries : List DisasmInsn) (bits : ℕ) (found : DisasmInsn)
    → all_pass test entries ≡ true
    → find_insn entries bits ≡ some found
    → test found ≡ true
unfolding all_pass find_insn
find_insn-all_pass test [] bits found all e = cc
find_insn-all_pass test (entry ∷ rest) bits found all e =
    ground (arith, find_insn-all_pass test rest bits found, ap test)

-- No entry has memory as its first argument.
starts_in_order : List Arg → Bool
starts_in_order [] = true
starts_in_order (load_address ∷ rest) = false
starts_in_order (store_address ∷ rest) = false
starts_in_order (other ∷ rest) = true

entries_start_in_order : all_pass (λ entry. starts_in_order entry.args) disasm_entries ≡ true
unfolding all_pass starts_in_order disasm_entries
entries_start_in_order = refl

arg_sources-in_order :
    (args : List Arg) (insn : ℕ)
    → starts_in_order args ≡ true
    → starts_in_memory (arg_sources args insn) ≡ false
unfolding arg_sources src starts_in_order
arg_sources-in_order [] insn e = refl
arg_sources-in_order (load_address ∷ rest) insn e = cc
arg_sources-in_order (store_address ∷ rest) insn e = cc
arg_sources-in_order (other ∷ rest) insn e = refl

or_else-cases :
    (first second : Option DisasmInsn) (entry : DisasmInsn)
    → or_else first second ≡ some entry
    → (first ≡ some entry) ⊎ (second ≡ some entry)
or_else-cases none second entry e = inr e
or_else-cases (some found) second entry e = inl e

in_kept :
    (which : DisasmInsn → Bool) (insn : ℕ) (entry : DisasmInsn)
    → find_insn (keep which disasm_entries) insn ≡ some entry
    → starts_in_order entry.args ≡ true
in_kept which insn entry e =
    find_insn-all_pass (λ entry. starts_in_order entry.args) (keep which disasm_entries) insn entry
      (all_pass-keep (λ entry. starts_in_order entry.args) which disasm_entries
        entries_start_in_order)
      e

lookup-in_order :
    (insn : ℕ) (entry : DisasmInsn)
    → lookup disassembler insn ≡ some entry
    → starts_in_order entry.args ≡ true
unfolding disassembler
lookup-in_order insn entry e =
    elim (or_else-cases _ _ entry (sym (lookup-add_insns disasm_entries insn) ∙ e)) [
      | inl first ↦ in_kept is_hashed insn entry first
      | inr later ↦ in_kept (λ entry. not (is_hashed entry)) insn entry later
    ]

-- What `lookup_args` finds for a word never starts with memory.
pub lookup_args-in_order :
    (insn : ℕ) (sources : List Source)
    → lookup_args disassembler insn ≡ some sources
    → starts_in_memory sources ≡ false
unfolding lookup_args
lookup_args-in_order insn sources e = elim (Option-cases (lookup disassembler insn)) [
  | inl gone ↦ ground (arith, gone)
  | inr (entry, found) ↦
      ground (arith, found, arg_sources-in_order entry.args insn (lookup-in_order insn entry found))
]
