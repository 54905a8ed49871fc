-- ===== src/Disasm/Laws.antt =====
-- The hashed chains of spike_main/disasm.cc find what a search of all entries would find.
use riscv_isa_sim.Base.{
  ℕ, ◌+◌, ◌-◌, ◌*◌, ◌/◌, ◌%◌, ◌≡◌, refl, ap₂, sym, Bool, true, false, ◌==◌, not, if◌then◌else◌,
  bit_and, bit_and_step, Option, none, some, List, [], ◌∷◌, ◌++◌, arith,
}
use mathlib.Core.List.{append-nil, append_assoc}
use riscv_isa_sim.Disasm.{
  DisasmInsn, is_insn, hash_size, Chains, no_chains, chain_of, add_insn, add_insns, find_insn,
  lookup,
}

-- The entries whose mask takes all of the lowest byte, which are hashed, and the others.
abbrev pub is_hashed : DisasmInsn → Bool
is_hashed entry = entry.mask % hash_size == hash_size - 1

abbrev pub keep : (DisasmInsn → Bool) → List DisasmInsn → List DisasmInsn
keep test [] = []
keep test (entry ∷ rest) = if test entry then entry ∷ keep test rest else keep test rest

abbrev pub or_else : Option DisasmInsn → Option DisasmInsn → Option DisasmInsn
or_else (some entry) other = some entry
or_else none other = other

odd_step : (a b : ℕ) → b % 2 ≡ 1 → bit_and a b ≡ a % 2 + 2 * bit_and (a / 2) (b / 2)
odd_step a b e = omega (arith, bit_and_step a b)

low_nibble : (a b : ℕ) → b % 16 ≡ 15 → bit_and a b ≡ a % 16 + 16 * bit_and (a / 16) (b / 16)
low_nibble a b e = omega (
  arith,
  odd_step a b (omega arith),
  odd_step (a / 2) (b / 2) (omega arith),
  odd_step (a / 2 / 2) (b / 2 / 2) (omega arith),
  odd_step (a / 2 / 2 / 2) (b / 2 / 2 / 2) (omega arith),
  ap₂ bit_and (sixteenth a) (sixteenth b),
)
  where
    sixteenth : (n : ℕ) → n / 2 / 2 / 2 / 2 ≡ n / 16
    sixteenth n = omega arith

low_byte : (a b : ℕ) → b % 256 ≡ 255 → bit_and a b % 256 ≡ a % 256
low_byte a b e =
    omega (arith, low_nibble a b (omega arith), low_nibble (a / 16) (b / 16) (omega arith))

one :
    (entry : DisasmInsn) (rest before : List DisasmInsn) (here : Bool)
    → (if here then before ++ (entry ∷ []) else before) ++ rest
      ≡ before ++ (if here then entry ∷ rest else rest)
one entry rest before true = append_assoc before (entry ∷ []) rest
one entry rest before false = refl

add_insns-chain :
    (entries : List DisasmInsn) (chain : Chains) (i : ℕ)
    → add_insns entries chain i ≡ chain i ++ keep (λ entry. i == chain_of entry) entries
unfolding add_insns add_insn
add_insns-chain [] chain i = sym (append-nil (chain i))
add_insns-chain (entry ∷ rest) chain i =
    rw (add_insns-chain rest (add_insn entry chain) i)
      (one entry (keep (λ entry. i == chain_of entry) rest) (chain i) (i == chain_of entry))

find_insn-hashed :
    (entries : List DisasmInsn) (bits : ℕ)
    → find_insn (keep (λ entry. bits % hash_size == chain_of entry) entries) bits
      ≡ find_insn (keep is_hashed entries) bits
unfolding find_insn is_insn chain_of
find_insn-hashed [] bits = refl
find_insn-hashed (entry ∷ rest) bits =
    ground (arith, low_byte bits entry.mask, find_insn-hashed rest bits)

find_insn-others :
    (entries : List DisasmInsn) (bits : ℕ)
    → find_insn (keep (λ entry. hash_size == chain_of entry) entries) bits
      ≡ find_insn (keep (λ entry. not (is_hashed entry)) entries) bits
unfolding find_insn chain_of
find_insn-others [] bits = refl
find_insn-others (entry ∷ rest) bits = ground (arith, find_insn-others rest bits)

-- The search through the chains that `add_insn` filled finds, for every list of entries and every
-- word, the first entry that matches among those whose mask takes all of the lowest byte, and if none
-- of them does, the first that matches among the others.
pub lookup-add_insns :
    (entries : List DisasmInsn) (bits : ℕ)
    → lookup (add_insns entries no_chains) bits
      ≡ or_else
          (find_insn (keep is_hashed entries) bits)
          (find_insn (keep (λ entry. not (is_hashed entry)) entries) bits)
unfolding lookup
lookup-add_insns entries bits = ground (
  arith,
  add_insns-chain entries no_chains (bits % hash_size),
  add_insns-chain entries no_chains hash_size,
  find_insn-hashed entries bits,
  find_insn-others entries bits,
)
