-- ===== src/Disasm/Found.antt =====
-- Each word that is an instruction has an entry in the disassembler of spike_main/disasm.cc, as its
-- constructor adds one for every instruction of riscv/encoding.h.
use riscv_isa_sim.Base.{
  ℕ, ◌≡◌, refl, ap, ◌∙◌, inl, inr, Option-cases, Bool, true, false, ◌||◌, not, Option, none, some,
  List, [], ◌∷◌, ◌++◌, map, arith,
}
use mathlib.Core.List.{Memᴰ}
use mathlib.Core.List.Memᴰ.{not-nil, cases_cons}
use riscv_isa_sim.Hart.Decode.{InsnDesc}
use riscv_isa_sim.Hart.Decode.Scan.{matches}
use riscv_isa_sim.Isa.Opcodes.{InsnName, registered}
use riscv_isa_sim.Disasm.{Source, DisasmInsn, is_insn, find_insn, lookup, lookup_args, arg_sources}
use riscv_isa_sim.Disasm.Table.{
  integer_entries, float_entries, fallback, disasm_entries, disassembler,
}
use riscv_isa_sim.Disasm.Laws.{is_hashed, keep, or_else, lookup-add_insns}

abbrev is_some : Option DisasmInsn → Bool
is_some none = false
is_some (some entry) = true

is_some-or_else :
    (first second : Option DisasmInsn)
    → is_some (or_else first second) ≡ (is_some first || is_some second)
is_some-or_else none second = refl
is_some-or_else (some entry) second = refl

-- To search the kept and then the others finds an entry exactly if there is one.
find_insn-parts :
    (which : DisasmInsn → Bool) (entries : List DisasmInsn) (bits : ℕ)
    → (is_some (find_insn (keep which entries) bits)
        || is_some (find_insn (keep (λ entry. not (which entry)) entries) bits))
      ≡ is_some (find_insn entries bits)
unfolding find_insn
find_insn-parts which [] bits = refl
find_insn-parts which (entry ∷ rest) bits = ground (arith, find_insn-parts which rest bits)

find_insn-append :
    (first second : List DisasmInsn) (bits : ℕ)
    → is_some (find_insn second bits) ≡ true
    → is_some (find_insn (first ++ second) bits) ≡ true
unfolding find_insn
find_insn-append [] second bits e = e
find_insn-append (entry ∷ rest) second bits e = ground (arith, find_insn-append rest second bits e)

-- Whether one of the instructions matches the word.
unfoldable pub any_matches : List (InsnDesc InsnName) → ℕ → Bool
any_matches [] bits = false
any_matches (desc ∷ rest) bits = matches bits desc || any_matches rest bits

mem-any_matches :
    (descs : List (InsnDesc InsnName)) (desc : InsnDesc InsnName) (bits : ℕ)
    → Memᴰ desc descs
    → matches bits desc ≡ true
    → any_matches descs bits ≡ true
unfolding any_matches
mem-any_matches [] desc bits mem e = absurd (not-nil mem)
mem-any_matches (first ∷ rest) desc bits mem e = elim (cases_cons mem) [
  | inl same ↦ ground (arith, e, ap (λ (d : InsnDesc InsnName). matches bits d) same)
  | inr deeper ↦ ground (arith, mem-any_matches rest desc bits deeper e)
]

find_insn-fallback :
    (descs : List (InsnDesc InsnName)) (bits : ℕ)
    → any_matches descs bits ≡ true
    → is_some (find_insn (map fallback descs) bits) ≡ true
unfolding find_insn is_insn any_matches
find_insn-fallback [] bits e = e
find_insn-fallback (first ∷ rest) bits e = ground (arith, e, find_insn-fallback rest bits)

lookup-any_matches :
    (bits : ℕ) → any_matches registered bits ≡ true → is_some (lookup disassembler bits) ≡ true
unfolding disassembler disasm_entries
lookup-any_matches bits e =
    ap is_some (lookup-add_insns disasm_entries bits)
    ∙ is_some-or_else (find_insn (keep is_hashed disasm_entries) bits) _
    ∙ find_insn-parts is_hashed disasm_entries bits
    ∙ find_insn-append integer_entries _ bits
        (find_insn-append float_entries _ bits (find_insn-fallback registered bits e))

pub lookup_args-any_matches :
    (bits : ℕ)
    → any_matches registered bits ≡ true
    → (sources : List Source) × (lookup_args disassembler bits ≡ some sources)
unfolding lookup_args
lookup_args-any_matches bits e =
    let there = lookup-any_matches bits e in
    elim (Option-cases (lookup disassembler bits)) [
      | inl gone ↦ absurd (ground (arith, gone, there))
      | inr (entry, found) ↦ (arg_sources entry.args bits, ground (arith, found))
    ]

-- For every word that matches an instruction which the simulator registers, the disassembler has an
-- entry, and `lookup_args` returns the arguments without reading through NULL.
pub lookup_args-registered :
    (desc : InsnDesc InsnName) (bits : ℕ)
    → Memᴰ desc registered
    → matches bits desc ≡ true
    → (sources : List Source) × (lookup_args disassembler bits ≡ some sources)
lookup_args-registered desc bits mem e =
    lookup_args-any_matches bits (mem-any_matches registered desc bits mem e)
