-- ===== src/Disasm.antt =====
-- `disassembler_t` of riscv/disasm.h and spike_main/disasm.cc: the entries, the hashed chains, the
-- search for the entry of a word, and the registers that its arguments name. The text that an entry
-- prints is left out.
pub mod Table
pub mod Laws
pub mod Entries
pub mod Found
use riscv_isa_sim.Base.{
  ℕ, ◌%◌, ◌-◌, Bool, true, false, ◌==◌, if◌then◌else◌, bit_and, Option, none, some, List, [], ◌∷◌,
  ◌++◌,
}
use riscv_isa_sim.Isa.Insn.{rd, rs1, rs2}

-- The objects of subclasses of `arg_t`.
pub data Arg : Type 0 where
  load_address : Arg
  store_address : Arg
  amo_address : Arg
  xrd : Arg
  xrs1 : Arg
  xrs2 : Arg
  frd : Arg
  frs1 : Arg
  frs2 : Arg
  frs3 : Arg
  csr_arg : Arg
  imm : Arg
  bigimm : Arg
  zimm5 : Arg
  branch_offset : Arg
  jump_offset : Arg

-- What `src` returns: -1 for memory, or the number of a register, which is 0 for none.
pub data Source : Type 0 where
  in_memory : Source
  in_reg : ℕ → Source

unfoldable pub src : Arg → ℕ → Source
src load_address insn = in_memory
src store_address insn = in_memory
src xrd insn = in_reg (rd insn)
src xrs1 insn = in_reg (rs1 insn)
src xrs2 insn = in_reg (rs2 insn)
src other insn = in_reg 0

pub record DisasmInsn : Type 0 where
  pub match_bits : ℕ
  pub mask : ℕ
  pub args : List Arg

-- `operator ==`.
unfoldable pub is_insn : DisasmInsn → ℕ → Bool
is_insn entry bits = bit_and bits entry.mask == entry.match_bits

abbrev pub hash_size : ℕ
hash_size = 256

-- `chain`, of HASH_SIZE + 1 vectors.
abbrev pub Chains : Type 0
Chains = ℕ → List DisasmInsn

abbrev pub no_chains : Chains
no_chains _ = []

-- The chain that an entry is put in.
unfoldable pub chain_of : DisasmInsn → ℕ
chain_of entry =
    if entry.mask % hash_size == hash_size - 1 then entry.match_bits % hash_size else hash_size

unfoldable pub add_insn : DisasmInsn → Chains → Chains
unfolding chain_of
add_insn entry chain i = if i == chain_of entry then chain i ++ (entry ∷ []) else chain i

-- `add_insn` of each entry, in the order of the constructor.
unfoldable pub add_insns : List DisasmInsn → Chains → Chains
unfolding add_insn
add_insns [] chain = chain
add_insns (entry ∷ rest) chain = add_insns rest (add_insn entry chain)

-- One of the loops of `lookup`, over a chain.
unfoldable pub find_insn : List DisasmInsn → ℕ → Option DisasmInsn
unfolding is_insn
find_insn [] bits = none
find_insn (entry ∷ rest) bits = if is_insn entry bits then some entry else find_insn rest bits

unfoldable pub lookup : Chains → ℕ → Option DisasmInsn
unfolding find_insn
lookup chain bits = elim (find_insn (chain (bits % hash_size)) bits) [
  | some entry ↦ some entry
  | none ↦ find_insn (chain hash_size) bits
]

-- `if(i == 0 || t != 0) argbuf[s++] = t;`, for the arguments after the first.
unfoldable pub later_args : List Arg → ℕ → List Source
unfolding src
later_args [] insn = []
later_args (a ∷ rest) insn = elim (src a insn) [
  | in_memory ↦ in_memory ∷ later_args rest insn
  | in_reg r ↦ if r == 0 then later_args rest insn else in_reg r ∷ later_args rest insn
]

unfoldable pub arg_sources : List Arg → ℕ → List Source
unfolding src later_args
arg_sources [] insn = []
arg_sources (a ∷ rest) insn = src a insn ∷ later_args rest insn

-- `lookup_args`: what it leaves in `argbuf`. Where no entry is found, the code reads through NULL.
unfoldable pub lookup_args : Chains → ℕ → Option (List Source)
unfolding lookup arg_sources
lookup_args chain insn = elim (lookup chain insn) [
  | some entry ↦ some (arg_sources entry.args insn)
  | none ↦ none
]
